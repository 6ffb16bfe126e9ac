-- ===== src/Ssh/Tests.antt =====
-- transient/ssh.py on concrete configurations and guests, and the theorem at them.
use transient.Base.{
  ℕ, ◌≡◌, refl, true, none, some, [], ◌∷◌, ltb, if◌then◌else◌, drop, Text, lit, text_eq, split,
  runtime_error, Result, ok, err,
}
use transient.Base.Decimal.{show_nat, read_nat}
use transient.Ssh.{SshConfig, ssh_config, prepare_ssh_command, scp_command}
use transient.Ssh.Connection.{
  Guest, exited, timed_connection, Tries, Decides, timed_connection-Decides,
}
use transient.Ssh.Port.{find_ssh_port_forward}

abbrev config : SshConfig
config =
    ssh_config (lit "127.0.0.1") (some 2222) none none (some (lit "root")) none [] (lit "A=b" ∷ [])

last_words :
    drop 11 (prepare_ssh_command (lit "key" ∷ []) config (some (lit "ls")))
    ≡ lit "-o"
      ∷ lit "A=b"
      ∷ lit "-p"
      ∷ lit "2222"
      ∷ lit "-i"
      ∷ lit "key"
      ∷ lit "root@127.0.0.1"
      ∷ lit "ls"
      ∷ []
unfolding prepare_ssh_command ssh_config show_nat lit
last_words = refl

copied_out :
    drop 17 (scp_command [] config true (lit "/mnt/etc") (lit "out"))
    ≡ lit "root@127.0.0.1:/mnt/etc" ∷ lit "out" ∷ []
unfolding scp_command ssh_config show_nat lit
copied_out = refl

usernet : Text
usernet =
    lit
      "VLAN -1 (transient-sshdev):\r\n  Protocol[State]    FD  Source Address  Port   Dest. Address  Port RecvQ SendQ\r\n  TCP[HOST_FORWARD]  12               * 35323       10.0.2.15    22     0     0\r\n"

port_found : find_ssh_port_forward usernet ≡ ok 35323
unfolding find_ssh_port_forward usernet split text_eq lit read_nat
port_found = refl

no_port :
    find_ssh_port_forward (lit "  TCP[HOST_FORWARD]  12  * 35323  10.0.2.15  22")
    ≡ err (runtime_error (lit "Unable to locate SSH port"))
unfolding find_ssh_port_forward split text_eq lit read_nat
no_port = refl

-- The guest answers after eight seconds.
abbrev slow : Guest
slow t = if ltb t 8 then (1, exited 255 true) else (1, exited 0 true)

connected : timed_connection 91 slow 90 0 ≡ some (ok 10)
unfolding timed_connection
connected = refl

timed_connection-Decides_example :
    (result : Result ℕ) × (t : ℕ) × (timed_connection 91 slow 90 0 ≡ some result)
    × Tries slow 90 t
    × Decides slow 90 t result
timed_connection-Decides_example = timed_connection-Decides slow 90
