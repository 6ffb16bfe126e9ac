-- ===== src/Cli/Ssh/Tests.antt =====
-- transient/cli.py, `ssh_impl`, at two processes, and the theorem at them.
use transient.Base.{
  ◌≡◌, refl, Bool, true, false, some, [], ◌∷◌, ◌++◌, ltb, if◌then◌else◌, Text, lit, text_eq,
  transient_error, Result, ok, err,
}
use transient.Base.Decimal.{read_nat}
use transient.Base.Dict.{insert}
use transient.Scan.{Json, text, number, decoded, Proc, item, int, scan_procs}
use transient.Scan.Search.{Clock}
use transient.Cli.Ssh.{SshArgs, SshTarget, ssh_impl, Decided, ssh_impl-Decided}

abbrev process : Text → Text → Json → Proc
process pid name port = record {
  proc = pid;
  is_dir = true;
  environ = some (lit "__TRANSIENT_PROCESS=1" ++ (0 ∷ lit "__TRANSIENT_DATA_FD=5"));
  start_time = ok 7;
  proc_data = λ fd.
      decoded (
        (lit "name", text name) ∷ (lit "vmstore", text (lit "/vms")) ∷ (lit "ssh_port", port) ∷ []);
}

-- The second machine starts after nine seconds.
abbrev clock : Clock
clock t =
    let other = process (lit "41") (lit "a") (number 2200) in
    if ltb t 9
    then (1, other ∷ [])
    else (1, other ∷ process (lit "42") (lit "vm") (number 2222) ∷ [])

abbrev args : Bool → SshArgs
args wait = record {
  name = lit "vm";
  wait = wait;
  ssh_timeout = 30;
  vmstore = lit "/vms";
  ssh_user = lit "root";
  ssh_bin_name = lit "ssh";
  ssh_option = [];
  ssh_command = some (lit "ls");
}

abbrev same_path : Text → Text
same_path p = p

connects :
    ssh_impl same_path 31 clock (args true)
    ≡ some (
        ok (record {
          user = lit "root";
          ssh_bin_name = lit "ssh";
          port = number 2222;
          extra_options = [];
          command = some (lit "ls");
        }))
unfolding ssh_impl scan_procs lit text_eq read_nat insert item int
connects = refl

does_not_wait :
    ssh_impl same_path 31 clock (args false)
    ≡ some (err (transient_error (lit "No running VM found with the name 'vm'")))
unfolding ssh_impl scan_procs lit text_eq read_nat insert item int
does_not_wait = refl

ssh_impl-Decided_example :
    (result : Result SshTarget) × (ssh_impl same_path 31 clock (args true) ≡ some result)
    × Decided same_path clock (args true) result
ssh_impl-Decided_example = ssh_impl-Decided same_path clock (args true)
