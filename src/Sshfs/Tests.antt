-- ===== src/Sshfs/Tests.antt =====
-- transient/sshfs.py at one folder of two, which is mounted, and the theorem at it.
use transient.Base.{
  ℕ, ◌+◌, ◌≤◌, ◌≡◌, refl, ◌↔◌, Bool, true, false, none, some, [], ◌∷◌, All, lit, runtime_error, ok,
  err,
}
use transient.Ssh.{ssh_config}
use transient.Sshfs.{
  Phase, waiting, connecting, settling, mounted, SshfsThread, new_thread, Event, server_started,
  slot_acquired, connected, marker_read, sshfs_runs, advance, wait_for_mount, get_sftp_server,
  Mount, ssh_command,
}
use transient.Sshfs.Slots.{
  Threads, Step, advances, Reach, start, next, connecting_threads, WasMounted, Reach-IsBounded,
}

abbrev folder : Mount
folder = record {
  local_dir = lit "/src";
  remote_dir = lit "/mnt";
  ssh_config = ssh_config (lit "127.0.0.1") (some 2222) none none none none [] [];
}

script :
    ssh_command folder
    ≡ lit
        "set -e\nsudo mkdir -p /mnt\n\necho TRANSIENT_SSHFS_STARTING >&2\nsudo -E sshfs -o slave,allow_other :/src /mnt"
unfolding ssh_command lit
script = refl

not_found :
    get_sftp_server (λ name path. none) (some (lit "/bin")) (lit "x")
    ≡ err (
        runtime_error (
          lit
            "\"x\" not found in PATH or usual locations. Try pointing -sftp-bin-name to an SFTP server."))
unfolding get_sftp_server lit
not_found = refl

abbrev in_phase : Phase → Bool → SshfsThread
in_phase phase complete = record { phase = phase; is_complete = complete; exception = none }

abbrev state : ℕ → SshfsThread → Threads
state free t = record { free = free; threads = new_thread ∷ t ∷ [] }

one-Step :
    (free free' : ℕ) (t t' : SshfsThread) (event : Event)
    → advance free t.phase t event ≡ some (free', t')
    → Step (state free t) (state free' t')
one-Step free free' t t' event h = advances (new_thread ∷ []) [] t t' event refl h refl

mounts : Reach 2 (state 8 (in_phase mounted true))
unfolding advance lit
mounts =
    next
      (next
        (next
          (next
            (next start
              (one-Step 8 8 new_thread (in_phase waiting false) (server_started (ok [])) refl))
            (one-Step 8 7 (in_phase waiting false) (in_phase connecting false) slot_acquired refl))
          (one-Step 7 7 (in_phase connecting false) (in_phase connecting false) (connected (ok tt))
            refl))
        (one-Step 7 8 (in_phase connecting false) (in_phase settling false) marker_read refl))
      (one-Step 8 8 (in_phase settling false) (in_phase mounted true) (sshfs_runs true) refl)

Reach-IsBounded_example :
    (8 + connecting_threads (new_thread ∷ in_phase mounted true ∷ []) ≡ 8)
    × (connecting_threads (new_thread ∷ in_phase mounted true ∷ []) ≤ 8)
    × All (λ t. (wait_for_mount t ≡ ok tt) ↔ WasMounted t) (new_thread ∷ in_phase mounted true ∷ [])
Reach-IsBounded_example = Reach-IsBounded 2 (state 8 (in_phase mounted true)) mounts
