-- ===== src/Sshfs.antt =====
-- transient/sshfs.py: the threads that mount folders, which share a semaphore. The programs that a thread
-- starts and waits for are its environment, whose answers are the events of a thread.
pub mod Slots
pub mod Tests
use transient.Base.{
  contains, ℕ, suc, Bool, true, false, not, ◌||◌, Option, none, some, [], ◌∷◌, ◌++◌, ◌==◌,
  if◌then◌else◌, Text, lit, join, Exn, runtime_error, assertion_error, Result, ok, err,
}
use transient.Ssh.{SshConfig}

abbrev pub max_concurrent_sshfs : ℕ
max_concurrent_sshfs = 8

-- `get_sftp_server`: `which` is `shutil.which`, and `path_variable` the variable PATH.
unfoldable pub get_sftp_server : (Text → Text → Option Text) → Option Text → Text → Result Text
unfolding join lit
get_sftp_server which path_variable name =
    let path_addon = join (lit ":") (
      lit "/usr/lib/openssh"
      ∷ lit "/usr/libexec/openssh"
      ∷ lit "/usr/libexec"
      ∷ lit "/usr/lib/ssh"
      ∷ []) in
    let given = elim path_variable as (λ _. Text) [ none ↦ [] | some path ↦ path ] in
    elim (which name (given ++ (lit ":" ++ path_addon))) [
      | none ↦ err (
          runtime_error (
            lit "\""
            ++ (name
                ++ lit
                    "\" not found in PATH or usual locations. Try pointing -sftp-bin-name to an SFTP server.")))
      | some server ↦ ok server
    ]

-- A folder to mount: the arguments of `SshfsThread.__init__`.
pub record Mount : Type 0 where
  pub local_dir : Text
  pub remote_dir : Text
  pub ssh_config : SshConfig

unfoldable pub sshfs_command : Mount → Text
unfolding lit
sshfs_command m =
    lit "sudo -E sshfs -o slave,allow_other :" ++ (m.local_dir ++ (lit " " ++ m.remote_dir))

-- `inspect.cleandoc` takes the indentation away, where the names of the folders hold no line break.
unfoldable pub ssh_command : Mount → Text
unfolding sshfs_command lit
ssh_command m =
    lit "set -e\nsudo mkdir -p "
    ++ (m.remote_dir ++ (lit "\n\necho TRANSIENT_SSHFS_STARTING >&2\n" ++ sshfs_command m))

-- `self.ssh_config.override(args=...)`
unfoldable pub sshfs_config : Mount → SshConfig
unfolding lit
sshfs_config m = record m.ssh_config {
  args = (lit "-T" ∷ lit "-o" ∷ lit "LogLevel=ERROR" ∷ []) ++ m.ssh_config.args;
}

-- Where a thread is in `__do_mount`. It holds the semaphore while it is connecting.
pub data Phase : Type 0 where
  starting : Phase
  waiting : Phase
  connecting : Phase
  settling : Phase
  mounted : Phase
  closed : Phase
  failed : Phase

-- `SshfsThread`: the event `is_complete` and the attribute `exception`.
pub record SshfsThread : Type 0 where
  pub phase : Phase
  pub is_complete : Bool
  pub exception : Option Exn

-- `SshfsThread.__init__`
abbrev pub new_thread : SshfsThread
new_thread = record { phase = starting; is_complete = false; exception = none }

-- What a thread meets next: whether the SFTP server starts; the semaphore; the connection and its
-- marker; the end of `communicate`, or its timeout and whether the server still runs; the end of SSH, with
-- its return code and its errors.
pub data Event : Type 0 where
  server_started : Result Text → Event
  slot_acquired : Event
  connected : Result (Unit {0}) → Event
  marker_timeout : Text → Event
  marker_read : Event
  sshfs_ended : Text → Event
  sshfs_runs : Bool → Event
  ssh_ended : ℕ → Text → Event

-- The `except` of `run`
abbrev pub fail_with : Exn → SshfsThread
fail_with e = record { phase = failed; is_complete = true; exception = some e }

abbrev pub at_phase : Phase → SshfsThread → SshfsThread
at_phase phase t = record t { phase = phase }

-- The semaphore's free slots and a thread, after an event; none if the thread does not wait for it.
-- A connection whose marker is awaited is still connecting.
unfoldable pub advance : ℕ → Phase → SshfsThread → Event → Option (ℕ × SshfsThread)
unfolding lit
advance free starting t (server_started (ok server)) = some (free, at_phase waiting t)
advance free starting t (server_started (err e)) = some (free, fail_with e)
advance (suc free) waiting t slot_acquired = some (free, at_phase connecting t)
advance free connecting t (connected (ok u)) = some (free, at_phase connecting t)
advance free connecting t (connected (err e)) = some (suc free, fail_with e)
advance free connecting t (marker_timeout output) = some (
  suc free,
  fail_with (runtime_error (lit "Timeout while waiting for SSHFS. Output: " ++ output)),
)
advance free connecting t marker_read = some (suc free, at_phase settling t)
advance free settling t (sshfs_ended stderr) =
    some (free, fail_with (runtime_error (lit "SSHFS mount failed with: " ++ stderr)))
advance free settling t (sshfs_runs false) = some (free, fail_with assertion_error)
advance free settling t (sshfs_runs true) =
    some (free, record { phase = mounted; is_complete = true; exception = t.exception })
advance free mounted t (ssh_ended returncode stderr) =
    if returncode == 0 || contains (lit "closed by remote host") stderr
    then some (free, at_phase closed t)
    else some (free, fail_with (runtime_error (lit "SSHFS mount died with: " ++ stderr)))
advance free phase t event = none

-- `wait_for_mount`, of the thread as it is when the event's `wait` ends. The messages leave out the
-- seconds and the exception.
unfoldable pub wait_for_mount : SshfsThread → Result (Unit {0})
wait_for_mount t =
    if not t.is_complete
    then err (runtime_error (lit "SSHFS mount timed out"))
    else elim t.exception as (λ _. Result (Unit {0})) [
      | some e ↦ err (runtime_error (lit "SSHFS mount failed"))
      | none ↦ ok tt
    ]
