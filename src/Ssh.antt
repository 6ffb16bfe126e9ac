-- ===== src/Ssh.antt =====
-- transient/ssh.py: the commands of SSH, the wait for a guest and the forwarded port.
pub mod Connection
pub mod Port
pub mod Tests
use transient.Base.{
  ℕ, Bool, true, false, Option, none, some, List, [], ◌∷◌, ◌++◌, flat_map, Text, lit, join,
  path_join,
}
use transient.Base.Decimal.{show_nat}

pub record SshConfig : Type 0 where
  pub host : Text
  pub port : ℕ
  pub ssh_bin_name : Text
  pub sftp_bin_name : Text
  pub args : List Text
  pub user : Option Text
  pub password : Option Text

-- `__default_ssh_args`
abbrev pub default_ssh_args : List Text
default_ssh_args =
    lit "-o"
    ∷ lit "StrictHostKeyChecking=no"
    ∷ lit "-o"
    ∷ lit "UserKnownHostsFile=/dev/null"
    ∷ lit "-o"
    ∷ lit "batchMode=yes"
    ∷ lit "-o"
    ∷ lit "LogLevel=ERROR"
    ∷ lit "-o"
    ∷ lit "ConnectTimeout=3"
    ∷ []

-- `a or b`, where `a` may be None or empty
abbrev pub or_else : Option Text → Text → Text
or_else none default = default
or_else (some []) default = default
or_else (some (c ∷ text)) default = c ∷ text

-- `SshConfig.__init__`; no options and an empty list of options are the same.
unfoldable pub ssh_config :
    Text
    → Option ℕ
    → Option Text
    → Option Text
    → Option Text
    → Option Text
    → List Text
    → List Text
    → SshConfig
ssh_config host port ssh_bin_name sftp_bin_name user password args extra_options = record {
  host = host;
  port = elim port [ none ↦ 22 | some p ↦ p ];
  ssh_bin_name = or_else ssh_bin_name (lit "ssh");
  sftp_bin_name = or_else sftp_bin_name (lit "sftp-server");
  args = args ++ (default_ssh_args ++ flat_map (λ opt. lit "-o" ∷ opt ∷ []) extra_options);
  user = user;
  password = password;
}

-- The values of `_prepare_builtin_keys`, which extracts the files that are not there.
unfoldable pub builtin_keys : Text → List Text
unfolding path_join lit
builtin_keys home = path_join home (lit "vagrant.key") ∷ path_join home (lit "transient.key") ∷ []

unfoldable pub key_args : List Text → List Text
key_args keys = flat_map (λ key. lit "-i" ∷ key ∷ []) keys

-- The host, with the user in front of it
unfoldable pub user_at_host : SshConfig → Text
user_at_host config = elim config.user [
  | none ↦ config.host
  | some user ↦ user ++ (lit "@" ++ config.host)
]

-- `__prepare_ssh_command`
unfoldable pub prepare_ssh_command : List Text → SshConfig → Option Text → List Text
unfolding key_args user_at_host show_nat
prepare_ssh_command keys config user_cmd =
    config.ssh_bin_name
    ∷ (config.args
        ++ ((lit "-p" ∷ show_nat config.port ∷ [])
            ++ (key_args keys
                ++ (user_at_host config ∷ elim user_cmd [ none ↦ [] | some cmd ↦ cmd ∷ [] ]))))

-- The source and the destination of a copy, one of which is on the host.
unfoldable pub endpoints : SshConfig → Bool → Text → Text → List Text
unfolding user_at_host
endpoints config false source destination =
    source ∷ (user_at_host config ++ (lit ":" ++ destination)) ∷ []
endpoints config true source destination =
    (user_at_host config ++ (lit ":" ++ source)) ∷ destination ∷ []

-- The command of `scp`
unfoldable pub scp_command : List Text → SshConfig → Bool → Text → Text → List Text
unfolding endpoints key_args show_nat
scp_command keys config copy_from source destination =
    lit "scp"
    ∷ lit "-p"
    ∷ lit "-r"
    ∷ lit "-P"
    ∷ show_nat config.port
    ∷ (config.args ++ (key_args keys ++ endpoints config copy_from source destination))

-- The command of `rsync`
unfoldable pub rsync_command : List Text → SshConfig → Bool → Text → Text → List Text
unfolding endpoints key_args show_nat
rsync_command keys config copy_from source destination =
    let ssh_command =
      config.ssh_bin_name
      ∷ (config.args ++ ((lit "-p" ∷ show_nat config.port ∷ []) ++ key_args keys)) in
    lit "rsync"
    ∷ lit "--archive"
    ∷ lit "--acls"
    ∷ lit "--xattrs"
    ∷ lit "--sparse"
    ∷ lit "--info=progress2"
    ∷ lit "-e"
    ∷ join (lit " ") ssh_command
    ∷ endpoints config copy_from source destination
