-- ===== src/Scan.antt =====
-- transient/scan.py: the search for running instances in /proc. The file system, the clock, JSON with
-- base 64 and `os.path.realpath` are parameters.
pub mod Environ
pub mod Filters
pub mod Matches
pub mod Search
pub mod Tests
use transient.Base.{
  ℕ, Bool, true, false, not, ◌||◌, Option, none, some, List, [], ◌∷◌, if◌then◌else◌, Text, lit,
  text_eq, strip, split, cut, Exn, value_error, type_error, key_error, Result, ok, err, ◌>>=◌,
}
use transient.Base.Decimal.{read_nat}
use transient.Base.Dict.{Dict, lookup, insert, has_key}

-- A value of the JSON object that an instance writes.
pub data Json : Type 0 where
  null : Json
  text : Text → Json
  number : ℕ → Json
  boolean : Bool → Json

-- `json.loads(base64.b64decode(f.read()))`: an object, `JSONDecodeError`, or another exception.
pub data ProcData : Type 0 where
  decoded : Dict Json → ProcData
  not_json : ProcData
  failed : Exn → ProcData

-- An entry of /proc, as the search reads it; `environ` is what
-- `open(...).read()` gives of the environment, and none if it raises: the file cannot be opened or read, or is
-- not text in the encoding of the reader.
pub record Proc : Type 0 where
  pub proc : Text
  pub is_dir : Bool
  pub environ : Option Text
  pub start_time : Result ℕ
  pub proc_data : ℕ → ProcData

-- `TransientInstance`: an attribute that the object has not keeps the `None` of the constructor.
pub record TransientInstance : Type 0 where
  pub qemu_pid : ℕ
  pub start_time : ℕ
  pub name : Json
  pub ssh_port : Json
  pub config : Dict Json

abbrev pub scan_data_fd : Text
unfolding lit
scan_data_fd = lit "__TRANSIENT_DATA_FD"

abbrev pub scan_environ_sentinel : Text
unfolding lit
scan_environ_sentinel = lit "__TRANSIENT_PROCESS"

abbrev pub or_null : Option Json → Json
or_null none = null
or_null (some j) = j

abbrev pub transient_instance : ℕ → ℕ → Dict Json → TransientInstance
transient_instance qemu_pid start_time config = record {
  qemu_pid = qemu_pid;
  start_time = start_time;
  name = or_null (lookup (lit "name") config);
  ssh_port = or_null (lookup (lit "ssh_port") config);
  config = config;
}

-- The loop over the variables; a variable without `=` raises, which is none here.
unfoldable pub environ_of : List Text → Dict Text → Option (Dict Text)
unfolding cut
environ_of [] environ = some environ
environ_of (variable ∷ variables) environ = elim (cut b'=' variable) [
  | none ↦ none
  | some (name, value) ↦ environ_of variables (insert name value environ)
]

-- `_read_pid_environ`, with the `except: continue` of its caller as none.
unfoldable pub read_pid_environ : Option Text → Option (Dict Text)
unfolding environ_of split strip
read_pid_environ none = none
read_pid_environ (some raw_environ) = environ_of (split 0 (strip 0 raw_environ)) []

-- `int(text)`, of a text as `str` writes a number; any other raises `ValueError`.
unfoldable pub int : Text → Result ℕ
int t = elim (read_nat t) [ none ↦ err value_error | some n ↦ ok n ]

abbrev pub or_key_error : {V : Type 0} → Option V → Result V
or_key_error none = err key_error
or_key_error (some v) = ok v

-- `d[key]`
unfoldable pub item : {V : Type 0} → Text → Dict V → Result V
item key d = or_key_error (lookup key d)

-- The arguments of the search.
pub record Criteria : Type 0 where
  pub name : Option Text
  pub with_ssh : Bool
  pub vmstore : Option Text

-- A path of the object, as `os.path.realpath` takes it.
abbrev pub path_of : Json → Result Text
path_of (text t) = ok t
path_of j = err type_error

abbrev pub json_is : Text → Json → Bool
json_is name (text t) = text_eq t name
json_is name j = false

-- The three tests. The message of a skipped process reads the key that it may not have.
unfoldable pub has_name : Option Text → Dict Json → Result Bool
has_name none entry = ok true
has_name (some name) entry = item (lit "name") entry >>= λ j. ok (json_is name j)

unfoldable pub has_ssh : Bool → Dict Json → Bool
has_ssh with_ssh entry = not with_ssh || has_key (lit "ssh_port") entry

abbrev pub appended : Option TransientInstance → List TransientInstance → List TransientInstance
appended none found = found
appended (some i) found = i ∷ found

module _ (realpath : Text → Text) where
  unfoldable pub in_vmstore : Option Text → Dict Json → Result Bool
  in_vmstore none entry = ok true
  in_vmstore (some vmstore) entry = item (lit "vmstore") entry >>= λ j.
      path_of j >>= λ path. ok (text_eq (realpath path) (realpath vmstore))

  -- The tests in their order, each of which may skip the process.
  unfoldable pub select : Criteria → Text → ℕ → Dict Json → Result (Option TransientInstance)
  unfolding in_vmstore has_name has_ssh
  select c proc start_time entry = in_vmstore c.vmstore entry >>= λ stored.
      if not stored
      then ok none
      else (has_name c.name entry >>= λ named.
          if not named
          then ok none
          else if not (has_ssh c.with_ssh entry)
          then ok none
          else (int proc >>= λ pid. ok (some (transient_instance pid start_time entry))))

  -- The body of the loop over /proc: what it appends, or none at a `continue`.
  unfoldable pub inspect : Criteria → Proc → Result (Option TransientInstance)
  unfolding read_pid_environ select has_key
  inspect c p = if not p.is_dir then ok none else elim (read_pid_environ p.environ) [
    | none ↦ ok none
    | some environ ↦
        if not (has_key scan_environ_sentinel environ)
        then ok none
        else (p.start_time >>= λ start_time. item scan_data_fd environ >>= λ fd.
            int fd >>= λ data_fd. elim (p.proc_data data_fd) [
              | not_json ↦ ok none
              | failed e ↦ err e
              | decoded entry ↦ select c p.proc start_time entry
            ])
  ]

  -- `for proc in os.listdir(_PID_ROOT)`
  unfoldable pub scan_procs : Criteria → List Proc → Result (List TransientInstance)
  unfolding inspect
  scan_procs c [] = ok []
  scan_procs c (p ∷ ps) =
      inspect c p >>= λ found. scan_procs c ps >>= λ instances. ok (appended found instances)
