-- ===== src/Machine/Announce.antt =====
-- transient/transient.py, `__prepare_proc_data` and `__build_qemu_environment`: what a machine tells of itself,
-- and that the search of transient/scan.py reads it.
pub mod Tests
use transient.Base.{
  ok-injective, ℕ, ◌≡◌, refl, ap, ◌∙◌, Bool, true, false, not, ◌&&◌, ◌||◌, Option, none, some, [],
  ◌∷◌, if◌then◌else◌, All, Text, lit, text_eq, text_eq_refl, has_char, Result, ok, ◌>>=◌, >>=-eq-ok,
}
use transient.Base.Decimal.{show_nat, read_nat-show_nat, show_nat_no_char}
use transient.Base.Dict.{Dict, lookup, insert, has_key, lookup-insert, IsDict, insert-IsDict}
use transient.Configuration.{config_requires_ssh}
use transient.Store.Spec.{image_spec}
use transient.Machine.Config.{TransientVm, is_stateless}
use transient.Scan.{
  or_null, Json, text, number, boolean, null, decoded, Proc, TransientInstance, transient_instance,
  read_pid_environ, int, Criteria, in_vmstore, has_name, has_ssh, select, inspect, scan_data_fd,
  scan_environ_sentinel,
}
use transient.Scan.Environ.{
  environ_file, IsVariable, read_pid_environ-environ_file, insert-IsVariable, insert_ne_nil,
}
use transient.Scan.Filters.{lookup-item}

abbrev pub port_json : Option ℕ → Json
port_json none = null
port_json (some port) = number port

-- The data of `__prepare_proc_data`, before they are coded by JSON and base 64; `pid` is `os.getpid()`.
unfoldable pub prepare_proc_data : Text → ℕ → TransientVm → Result (Dict Json)
prepare_proc_data vmstore pid vm = do
  spec ← image_spec vm.config.image
  ok (
      (lit "name", text vm.name)
      ∷ (lit "vmstore", text vmstore)
      ∷ (lit "primary_image", text spec.name)
      ∷ (lit "stateless", boolean (is_stateless vm.config))
      ∷ (lit "transient_pid", number pid)
      ∷ (if config_requires_ssh vm.config.needs
          then (lit "ssh_port", port_json vm.set_ssh_port) ∷ []
          else []))

-- `__build_qemu_environment`, of `os.environ` and the number of the file
unfoldable pub build_qemu_environment : Dict Text → ℕ → Dict Text
unfolding insert show_nat
build_qemu_environment environ fileno =
    insert scan_data_fd (show_nat fileno) (insert scan_environ_sentinel (lit "1") environ)

-- What the search sees of QEMU: a directory of its number, the environment that it was started with, which can
-- be decoded as text, and in
-- the open file what was written to it, as JSON and base 64 give it back.
pub record IsQemu (environ : Dict Text) (fileno pid started : ℕ) (entry : Dict Json) (p : Proc)
    : Type 0 where
  pub proc : p.proc ≡ show_nat pid
  pub is_dir : p.is_dir ≡ true
  pub variables : p.environ ≡ some (environ_file (build_qemu_environment environ fileno))
  pub start_time : p.start_time ≡ ok started
  pub proc_data : p.proc_data fileno ≡ decoded entry

-- Whether the search is for this machine, by its name, its store and whether it has SSH
abbrev has_this_store : (Text → Text) → Text → Option Text → Bool
has_this_store realpath vmstore none = true
has_this_store realpath vmstore (some v) = text_eq (realpath vmstore) (realpath v)

abbrev has_this_name : Text → Option Text → Bool
has_this_name name none = true
has_this_name name (some n) = text_eq name n

unfoldable pub is_wanted : (Text → Text) → Criteria → Text → TransientVm → Bool
is_wanted realpath c vmstore vm =
    has_this_store realpath vmstore c.vmstore
    && (has_this_name vm.name c.name && (not c.with_ssh || config_requires_ssh vm.config.needs))

int-show_nat : (n : ℕ) → int (show_nat n) ≡ ok n
unfolding int
int-show_nat n = rw (int, read_nat-show_nat n) refl

-- What the data hold, however they were made
pub record Tells (vmstore : Text) (vm : TransientVm) (entry : Dict Json) : Type 0 where
  pub named : lookup (lit "name") entry ≡ some (text vm.name)
  pub stored : lookup (lit "vmstore") entry ≡ some (text vmstore)
  pub port :
      lookup (lit "ssh_port") entry
      ≡ (if config_requires_ssh vm.config.needs then some (port_json vm.set_ssh_port) else none)

prepare_proc_data-Tells :
    (vmstore : Text) (own : ℕ) (vm : TransientVm) (entry : Dict Json)
    → prepare_proc_data vmstore own vm ≡ ok entry
    → Tells vmstore vm entry
unfolding prepare_proc_data lookup lit text_eq
prepare_proc_data-Tells vmstore own vm entry h =
    let (spec, is_spec, made) = >>=-eq-ok (image_spec vm.config.image) _ h in
    rw (← ok-injective made)
      (record { named = refl; stored = refl; port = port (config_requires_ssh vm.config.needs) })
  where
    port :
        (b : Bool)
        → lookup
            (lit "ssh_port")
            (if b then (lit "ssh_port", port_json vm.set_ssh_port) ∷ [] else [])
          ≡ (if b then some (port_json vm.set_ssh_port) else none)
    port true = refl
    port false = refl

-- Three tests in a row, each of which may skip the process.
three_tests :
    (i : TransientInstance) (x y z : Bool)
    → (if not x then ok none else if not y then ok none else if not z then ok none else ok (some i))
      ≡ ok (if x && (y && z) then some i else none)
three_tests i false y z = refl
three_tests i true false z = refl
three_tests i true true false = refl
three_tests i true true true = refl

module _ (realpath : Text → Text) (c : Criteria) (vmstore : Text) (vm : TransientVm) where
  module _ {entry : Dict Json} (t : Tells vmstore vm entry) where
    in_vmstore-Tells :
        (v : Option Text) → in_vmstore realpath v entry ≡ ok (has_this_store realpath vmstore v)
    unfolding in_vmstore
    in_vmstore-Tells none = refl
    in_vmstore-Tells (some v) = rw (lookup-item (lit "vmstore") entry t.stored) refl

    has_name-Tells : (n : Option Text) → has_name n entry ≡ ok (has_this_name vm.name n)
    unfolding has_name
    has_name-Tells none = refl
    has_name-Tells (some n) = rw (lookup-item (lit "name") entry t.named) refl

    has_ssh-Tells : (b : Bool) → has_ssh b entry ≡ (not b || config_requires_ssh vm.config.needs)
    unfolding has_ssh has_key
    has_ssh-Tells b =
        ap (λ x. not b || x) (rw (has_key, t.port) (go (config_requires_ssh vm.config.needs)))
      where
        go :
            (r : Bool)
            → elim (if r then some (port_json vm.set_ssh_port) else none) as (λ _. Bool) [
              | none ↦ false
              | some v ↦ true
            ]
              ≡ r
        go true = refl
        go false = refl

    select-Tells :
        (pid started : ℕ)
        → select realpath c (show_nat pid) started entry
          ≡ ok (
              if is_wanted realpath c vmstore vm
              then some (transient_instance pid started entry)
              else none)
    unfolding select is_wanted
    select-Tells pid started =
        rw
          (
            in_vmstore-Tells c.vmstore,
            has_name-Tells c.name,
            has_ssh-Tells c.with_ssh,
            int-show_nat pid,
          )
          (three_tests (transient_instance pid started entry)
            (has_this_store realpath vmstore c.vmstore) (has_this_name vm.name c.name)
            (not c.with_ssh || config_requires_ssh vm.config.needs))

-- The environment of QEMU is one that can be read back, and has the two variables.
module _ (environ : Dict Text) (fileno : ℕ) (d : IsDict environ) (u : All IsVariable environ) where
  read_back :
      read_pid_environ (some (environ_file (build_qemu_environment environ fileno)))
      ≡ some (build_qemu_environment environ fileno)
  unfolding build_qemu_environment has_char lit
  read_back =
      read_pid_environ-environ_file (build_qemu_environment environ fileno) (insert_ne_nil _ _ _)
        (insert-IsDict _ _ _ (insert-IsDict _ _ environ d))
        (insert-IsVariable _ _ _ (refl, refl, show_nat_no_char 0 fileno refl)
          (insert-IsVariable _ _ environ (refl, refl, refl) u))

  lookup-fd : lookup scan_data_fd (build_qemu_environment environ fileno) ≡ some (show_nat fileno)
  unfolding build_qemu_environment
  lookup-fd =
      lookup-insert scan_data_fd scan_data_fd (show_nat fileno) _
      ∙ rw (text_eq_refl scan_data_fd) refl

  has_key-sentinel : has_key scan_environ_sentinel (build_qemu_environment environ fileno) ≡ true
  unfolding build_qemu_environment has_key text_eq lit
  has_key-sentinel =
      ap (λ o. elim o as (λ _. Bool) [ none ↦ false | some v ↦ true ])
        (lookup-insert scan_environ_sentinel scan_data_fd (show_nat fileno)
            (insert scan_environ_sentinel (lit "1") environ)
          ∙ lookup-insert scan_environ_sentinel scan_environ_sentinel (lit "1") environ)

  -- The search gives a machine that has announced itself exactly if it is asked for it, by name, by store
  -- and by whether it needs SSH, and then with the name and the port that it runs with. The environment of the
  -- process is taken to be read as text, as the search reads it strictly and skips the process otherwise, and
  -- its variables to be such as `os.environ` holds; whatever they are, the machine is found.
  pub inspect-IsQemu :
      (realpath : Text → Text) (c : Criteria) (vmstore : Text) (own : ℕ) (vm : TransientVm)
      (entry : Dict Json) (pid started : ℕ) (p : Proc)
      → prepare_proc_data vmstore own vm ≡ ok entry
      → IsQemu environ fileno pid started entry p
      → (i : TransientInstance) × (inspect realpath c p
          ≡ ok (if is_wanted realpath c vmstore vm then some i else none))
        × (i.qemu_pid ≡ pid)
        × (i.start_time ≡ started)
        × (i.name ≡ text vm.name)
        × (i.ssh_port
            ≡ (if config_requires_ssh vm.config.needs then port_json vm.set_ssh_port else null))
  unfolding inspect
  inspect-IsQemu realpath c vmstore own vm entry pid started p made q =
      let tells = prepare_proc_data-Tells vmstore own vm entry made in
      (
        transient_instance pid started entry,
        rw
            (
              q.is_dir,
              q.variables,
              read_back,
              has_key-sentinel,
              q.start_time,
              lookup-item scan_data_fd _ lookup-fd,
              int-show_nat fileno,
              q.proc_data,
              q.proc,
            )
            (select-Tells realpath c vmstore vm tells pid started),
        refl,
        refl,
        rw tells.named refl,
        rw tells.port (port (config_requires_ssh vm.config.needs)),
      )
    where
      port :
          (b : Bool)
          → or_null (if b then some (port_json vm.set_ssh_port) else none)
            ≡ (if b then port_json vm.set_ssh_port else null)
      port true = refl
      port false = refl
