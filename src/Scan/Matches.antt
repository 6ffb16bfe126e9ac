-- ===== src/Scan/Matches.antt =====
-- transient/scan.py: which processes the search gives.
use transient.Base.{
  ok-injective, ℕ, ◌≡◌, refl, ap, ◌∙◌, true, not, Option, none, some, List, [], ◌∷◌, if◌then◌else◌,
  Text, lit, Result, ok, err, ◌>>=◌, >>=-eq-ok,
}
use transient.Base.Dict.{Dict, lookup, has_key}
use transient.Scan.{
  Json, ProcData, decoded, not_json, failed, Proc, TransientInstance, transient_instance,
  read_pid_environ, int, item, Criteria, in_vmstore, has_name, has_ssh, select, inspect, appended,
  scan_procs, scan_data_fd, scan_environ_sentinel,
}
use transient.Scan.Filters.{
  item-eq-ok, lookup-item, unless, Stored, Named, in_vmstore-Stored, Stored-in_vmstore,
  has_name-Named, Named-has_name, has_ssh-true,
}

module _ (realpath : Text → Text) (c : Criteria) where
  -- A process of an instance that the search is for, and what is given for it.
  pub record IsMatch (p : Proc) (i : TransientInstance) : Type 0 where
    pub environ : Dict Text
    pub fd : Text
    pub data_fd : ℕ
    pub is_process : p.is_dir ≡ true
    pub readable : read_pid_environ p.environ ≡ some environ
    pub has_sentinel : has_key scan_environ_sentinel environ ≡ true
    pub has_fd : lookup scan_data_fd environ ≡ some fd
    pub is_fd : int fd ≡ ok data_fd
    pub written : p.proc_data data_fd ≡ decoded i.config
    pub stored : Stored realpath c.vmstore i.config
    pub named : Named c.name i.config
    pub ssh : c.with_ssh ≡ true → has_key (lit "ssh_port") i.config ≡ true
    pub pid : int p.proc ≡ ok i.qemu_pid
    pub started : p.start_time ≡ ok i.start_time
    pub same : transient_instance i.qemu_pid i.start_time i.config ≡ i

  IsMatch-inspect :
      (p : Proc) (i : TransientInstance) → IsMatch p i → inspect realpath c p ≡ ok (some i)
  unfolding inspect select
  IsMatch-inspect p i m =
      rw
        (
          m.is_process,
          m.readable,
          m.has_sentinel,
          m.started,
          lookup-item scan_data_fd m.environ m.has_fd,
          m.is_fd,
          m.written,
          Stored-in_vmstore realpath c.vmstore i.config m.stored,
          Named-has_name c.name i.config m.named,
          (has_ssh-true c.with_ssh i.config).1 m.ssh,
          m.pid,
          m.same,
        )
        refl

  select-eq-ok :
      (proc : Text) (start_time : ℕ) (entry : Dict Json) (i : TransientInstance)
      → select realpath c proc start_time entry ≡ ok (some i)
      → Stored realpath c.vmstore entry
        × Named c.name entry
        × (c.with_ssh ≡ true → has_key (lit "ssh_port") entry ≡ true)
        × (pid : ℕ) × (int proc ≡ ok pid)
        × (transient_instance pid start_time entry ≡ i)
  unfolding select
  select-eq-ok proc start_time entry i h =
      let (b, stored, h1) = >>=-eq-ok (in_vmstore realpath c.vmstore entry) _ h in
      let (is_stored, h2) = unless b h1 in
      let (b2, named, h3) = >>=-eq-ok (has_name c.name entry) _ h2 in
      let (is_named, h4) = unless b2 h3 in
      let (has_port, h5) = unless (has_ssh c.with_ssh entry) h4 in
      let (pid, is_pid, h6) = >>=-eq-ok (int proc) _ h5 in
      (
        in_vmstore-Stored realpath c.vmstore entry (stored ∙ ap ok is_stored),
        has_name-Named c.name entry (named ∙ ap ok is_named),
        (has_ssh-true c.with_ssh entry).0 has_port,
        pid,
        is_pid,
        cc (ok-injective h6),
      )

  inspect-IsMatch :
      (p : Proc) (i : TransientInstance) → inspect realpath c p ≡ ok (some i) → IsMatch p i
  unfolding inspect
  inspect-IsMatch p i h =
      let (is_process, h1) = unless p.is_dir h in
      read (read_pid_environ p.environ) refl is_process h1
    where
      with_data :
          (environ : Dict Text) (start_time : ℕ) (fd : Text) (data_fd : ℕ) (d : ProcData)
          → p.is_dir ≡ true
          → read_pid_environ p.environ ≡ some environ
          → has_key scan_environ_sentinel environ ≡ true
          → p.start_time ≡ ok start_time
          → item scan_data_fd environ ≡ ok fd
          → int fd ≡ ok data_fd
          → p.proc_data data_fd ≡ d
          → elim d as (λ _. Result (Option TransientInstance)) [
            | not_json ↦ ok none
            | failed e ↦ err e
            | decoded entry ↦ select realpath c p.proc start_time entry
          ]
            ≡ ok (some i)
          → IsMatch p i
      with_data environ st fd data_fd not_json a b e f g k l h = cc
      with_data environ st fd data_fd (failed ex) a b e f g k l h = cc
      with_data environ st fd data_fd (decoded entry) a b e f g k l h =
          let (stored, named, ssh, pid, is_pid, same) = select-eq-ok p.proc st entry i h in
          rw (← same) (record {
            environ = environ;
            fd = fd;
            data_fd = data_fd;
            is_process = a;
            readable = b;
            has_sentinel = e;
            has_fd = item-eq-ok scan_data_fd environ g;
            is_fd = k;
            written = l;
            stored = stored;
            named = named;
            ssh = ssh;
            pid = is_pid;
            started = f;
            same = refl;
          })

      read :
          (o : Option (Dict Text))
          → read_pid_environ p.environ ≡ o
          → p.is_dir ≡ true
          → elim o as (λ _. Result (Option TransientInstance)) [
            | none ↦ ok none
            | some environ ↦
                if not (has_key scan_environ_sentinel environ)
                then ok none
                else (p.start_time >>= λ start_time. item scan_data_fd environ >>= λ fd.
                    int fd >>= λ data_fd.
                    elim (p.proc_data data_fd) as (λ _. Result (Option TransientInstance)) [
                      | not_json ↦ ok none
                      | failed e ↦ err e
                      | decoded entry ↦ select realpath c p.proc start_time entry
                    ])
          ]
            ≡ ok (some i)
          → IsMatch p i
      read none e a h = cc
      read (some environ) e a h =
          let (sentinel, h1) = unless (has_key scan_environ_sentinel environ) h in
          let (st, started, h2) = >>=-eq-ok p.start_time _ h1 in
          let (fd, has_fd, h3) = >>=-eq-ok (item scan_data_fd environ) _ h2 in
          let (data_fd, is_fd, h4) = >>=-eq-ok (int fd) _ h3 in
          with_data environ st fd data_fd (p.proc_data data_fd) a e sentinel started has_fd is_fd
            refl h4

  -- The instances of the processes that match, in their order.
  pub data Selected : List Proc → List TransientInstance → Type 0 where
    nothing : Selected [] []
    found :
        {p : Proc} {ps : List Proc} {i : TransientInstance} {is : List TransientInstance}
        → IsMatch p i
        → Selected ps is
        → Selected (p ∷ ps) (i ∷ is)
    skipped :
        {p : Proc} {ps : List Proc} {is : List TransientInstance}
        → ((i : TransientInstance) → ¬ IsMatch p i)
        → Selected ps is
        → Selected (p ∷ ps) is

  pub scan_procs-Selected :
      (ps : List Proc) (is : List TransientInstance)
      → scan_procs realpath c ps ≡ ok is
      → Selected ps is
  unfolding scan_procs
  scan_procs-Selected [] is h = rw (← ok-injective h) nothing
  scan_procs-Selected (p ∷ ps) is h =
      let (o, is_o, h1) = >>=-eq-ok (inspect realpath c p) _ h in
      let (more, is_more, h2) = >>=-eq-ok (scan_procs realpath c ps) _ h1 in
      rw (← ok-injective h2) (go o is_o more (scan_procs-Selected ps more is_more))
    where
      go :
          (o : Option TransientInstance)
          → inspect realpath c p ≡ ok o
          → (more : List TransientInstance) → Selected ps more
          → Selected (p ∷ ps) (appended o more)
      go none e more s = skipped (λ i m. cc (e, IsMatch-inspect p i m)) s
      go (some i) e more s = found (inspect-IsMatch p i e) s
