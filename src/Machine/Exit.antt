-- ===== src/Machine/Exit.antt =====
-- transient/transient.py: the status that `__qemu_sigchld_handler` reads from `os.waitpid`.
use transient.Base.{
  ℕ, ◌+◌, ◌*◌, ◌/◌, ◌%◌, ◌^◌, ◌<◌, ◌≡◌, Bool, true, false, arith, ◌==◌, if◌then◌else◌,
}

-- The exit status for a 16-bit indicator: `exit_indicator & 0x7F` and `exit_indicator >> 8`.
unfoldable pub exit_status : ℕ → ℕ
exit_status indicator =
    let signal_number = indicator % 128 in if signal_number == 0 then indicator / 256 else 1

-- What the kernel reports of a process that exits with a code, or that a signal ends, with or without a
-- core file.
pub data Death : Type 0 where
  exits : ℕ → Death
  killed_by : ℕ → Bool → Death

abbrev pub IsDeath : Death → Type 0
IsDeath (exits code) = code < 256
IsDeath (killed_by sig core) = (0 < sig) × (sig < 127)

abbrev pub indicator_of : Death → ℕ
indicator_of (exits code) = code * 256
indicator_of (killed_by sig core) = if core then sig + 128 else sig

abbrev pub status_of : Death → ℕ
status_of (exits code) = code
status_of (killed_by sig core) = 1

-- The status of a process is its exit code, or 1 if a signal ended it, core file or not; it is a byte, so
-- it can be passed on as an exit code.
exit_status-indicator_of :
    (d : Death)
    → IsDeath d
    → (indicator_of d < 2 ^ 16)
      × (exit_status (indicator_of d) ≡ status_of d)
      × (exit_status (indicator_of d) < 2 ^ 8)
unfolding exit_status
exit_status-indicator_of (exits code) h = ground arith
exit_status-indicator_of (killed_by sig true) h = ground arith
exit_status-indicator_of (killed_by sig false) h = ground arith
