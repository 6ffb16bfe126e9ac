-- ===== src/Scan/Tests.antt =====
-- transient/scan.py on concrete processes, and the theorem at them.
use transient.Base.{
  ℕ, ◌≡◌, refl, true, false, some, [], ◌∷◌, ◌++◌, ltb, ◌==◌, if◌then◌else◌, Text, lit, text_eq,
  key_error, ok, err,
}
use transient.Base.Decimal.{read_nat}
use transient.Base.Dict.{Dict, insert}
use transient.Scan.{
  item, int, Json, text, decoded, not_json, Proc, transient_instance, Criteria, inspect, scan_procs,
}
use transient.Scan.Search.{
  Clock, Passes, Ends, Found, find_transient_instances, find_transient_instances-Ends,
}

abbrev config : Dict Json
config = (lit "name", text (lit "vm")) ∷ (lit "vmstore", text (lit "/vms")) ∷ []

abbrev process : Text → Dict Json → Proc
process pid config = record {
  proc = pid;
  is_dir = true;
  environ = some (
      (lit "A=b=c" ++ (0 ∷ lit "__TRANSIENT_PROCESS=1"))
      ++ (0 ∷ (lit "__TRANSIENT_DATA_FD=5" ++ (0 ∷ []))));
  start_time = ok 7;
  proc_data = λ fd. if fd == 5 then decoded config else not_json;
}

-- Another process, whose environment has a word that is no variable.
abbrev other : Proc
other = record {
  proc = lit "1";
  is_dir = true;
  environ = some (lit "PATH");
  start_time = ok 0;
  proc_data = λ fd. not_json;
}

abbrev named : Criteria
named = record { name = some (lit "vm"); with_ssh = false; vmstore = some (lit "/vms") }

abbrev same_path : Text → Text
same_path p = p

-- The instance starts after nine seconds.
abbrev clock : Clock
clock t = if ltb t 9 then (1, other ∷ []) else (1, other ∷ process (lit "42") config ∷ [])

found_later :
    find_transient_instances same_path 31 clock named (some 30)
    ≡ some (ok (transient_instance 42 7 config ∷ []))
unfolding find_transient_instances scan_procs lit text_eq read_nat insert item int
found_later = refl

-- An instance without the key that is searched for raises: the message of the skipped process reads it.
raises : inspect same_path named (process (lit "42") []) ≡ err key_error
unfolding inspect lit text_eq read_nat insert item int
raises = refl

find_transient_instances-Ends_example :
    (found : Found) × (t : ℕ) × (find_transient_instances same_path 31 clock named (some 30)
      ≡ some found)
    × Passes same_path clock named 30 t
    × Ends same_path clock named 30 t found
find_transient_instances-Ends_example = find_transient_instances-Ends same_path clock named 30 refl
