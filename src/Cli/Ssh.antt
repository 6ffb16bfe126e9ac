-- ===== src/Cli/Ssh.antt =====
-- transient/cli.py, `ssh_impl`: the instance that is searched for, and what SSH is told of it. What it does
-- with the guest is the client's.
pub mod Tests
use transient.Base.{
  ℕ, suc, ◌+◌, ◌≤◌, ◌≡◌, refl, ap, ◌∙◌, ◌≢◌, ◌↔◌, ◌⊎◌, inl, inr, Bool, true, false, Option, none,
  some, List, [], ◌∷◌, ◌++◌, arith, if◌then◌else◌, Bool-cases, length, Text, lit, Exn,
  transient_error, Result, ok, err,
}
use transient.Scan.{Json, null, Proc, TransientInstance, Criteria, scan_procs}
use transient.Scan.Search.{
  find_transient_instances_once, Ends, Passes, Clock, Found, find_transient_instances,
  find_transient_instances-Ends,
}
use transient.Scan.Matches.{Selected, scan_procs-Selected}

-- The arguments of the command that it reads.
pub record SshArgs : Type 0 where
  pub name : Text
  pub wait : Bool
  pub ssh_timeout : ℕ
  pub vmstore : Text
  pub ssh_user : Text
  pub ssh_bin_name : Text
  pub ssh_option : List Text
  pub ssh_command : Option Text

-- The arguments of `SshConfig` and `SshClient`; the host is 127.0.0.1.
pub record SshTarget : Type 0 where
  pub user : Text
  pub ssh_bin_name : Text
  pub port : Json
  pub extra_options : List Text
  pub command : Option Text

abbrev pub is_null : Json → Bool
is_null null = true
is_null j = false

-- What follows the search; the message for several instances leaves out the store.
unfoldable pub ssh_target : SshArgs → List TransientInstance → Result SshTarget
ssh_target args [] =
    err (transient_error (lit "No running VM found with the name '" ++ (args.name ++ lit "'")))
ssh_target args (_ ∷ _ ∷ _) = err (
    transient_error
      (lit "Multiple running VMs with the name '" ++ (args.name ++ lit "' in the store")))
ssh_target args (instance' ∷ []) =
    if is_null instance'.ssh_port
    then err (
        transient_error (
          lit "Running VM '"
          ++ (args.name ++ lit "' has no known SSH port. Was it started with '--ssh'?")))
    else ok (record {
      user = args.ssh_user;
      ssh_bin_name = args.ssh_bin_name;
      port = instance'.ssh_port;
      extra_options = args.ssh_option;
      command = args.ssh_command;
    })

abbrev pub ssh_criteria : SshArgs → Criteria
ssh_criteria args = record { name = some args.name; with_ssh = false; vmstore = some args.vmstore }

abbrev pub ssh_search_timeout : Bool → ℕ → Option ℕ
ssh_search_timeout wait timeout = if wait then some timeout else none

abbrev pub targeted : SshArgs → Option Found → Option (Result SshTarget)
targeted args none = none
targeted args (some (err e)) = some (err e)
targeted args (some (ok instances)) = some (ssh_target args instances)

module _ (realpath : Text → Text) where
  -- `ssh_impl`, up to the connection; none if the search runs out of fuel.
  unfoldable pub ssh_impl : ℕ → Clock → SshArgs → Option (Result SshTarget)
  unfolding find_transient_instances ssh_target
  ssh_impl fuel clock args = targeted args (
      find_transient_instances realpath fuel clock (ssh_criteria args)
        (ssh_search_timeout args.wait args.ssh_timeout))

  -- The one instance of the name and the store in one pass, with its port
  pub record Connects (clock : Clock) (args : SshArgs) (target : SshTarget) : Type 0 where
    pub time : ℕ
    pub duration : ℕ
    pub procs : List Proc
    pub instance_found : TransientInstance
    pub seen : clock time ≡ (duration, procs)
    pub selected : Selected realpath (ssh_criteria args) procs (instance_found ∷ [])
    pub has_port : instance_found.ssh_port ≢ null
    pub port : target.port ≡ instance_found.ssh_port
    pub user : target.user ≡ args.ssh_user
    pub command : target.command ≡ args.ssh_command

  -- What a pass, or the end of the time, gave
  abbrev pub Looked : Clock → SshArgs → Found → Type 0
  Looked clock args (ok instances) =
      (time : ℕ) × (duration : ℕ) × (procs : List Proc) × (clock time ≡ (duration, procs))
      × Selected realpath (ssh_criteria args) procs instances
  Looked clock args (err e) =
      (time : ℕ) × (duration : ℕ) × (procs : List Proc) × (clock time ≡ (duration, procs))
      × (scan_procs realpath (ssh_criteria args) procs ≡ err e)

  -- Why there is no connection: the search raised, the time was up, or there is not one instance with a port.
  abbrev pub Refuses : Clock → SshArgs → Exn → Type 0
  Refuses clock args e =
      Looked clock args (err e)
      ⊎ ((args.wait ≡ true)
          × (time : ℕ) × Passes realpath clock (ssh_criteria args) args.ssh_timeout time
          × (args.ssh_timeout ≤ time))
      ⊎ ((instances : List TransientInstance) × Looked clock args (ok instances)
          × ((length instances ≢ 1)
              ⊎ ((i : TransientInstance) × (instances ≡ i ∷ []) × (i.ssh_port ≡ null))))

  abbrev pub Decided : Clock → SshArgs → Result SshTarget → Type 0
  Decided clock args (ok target) = Connects clock args target
  Decided clock args (err e) = Refuses clock args e

  is_null_iff : (j : Json) → (is_null j ≡ true) ↔ (j ≡ null)
  is_null_iff null = (λ h. refl, λ h. refl)
  is_null_iff (Json.text t) = (λ h. cc, λ h. cc)
  is_null_iff (Json.number n) = (λ h. cc, λ h. cc)
  is_null_iff (Json.boolean b) = (λ h. cc, λ h. cc)

  ssh_target-Decided :
      (clock : Clock) (args : SshArgs) (instances : List TransientInstance)
      → Looked clock args (ok instances)
      → Decided clock args (ssh_target args instances)
  unfolding ssh_target
  ssh_target-Decided clock args [] l = inr (inr ([], l, inl (omega arith)))
  ssh_target-Decided clock args (i ∷ j ∷ more) l = inr (inr (i ∷ j ∷ more, l, inl (omega arith)))
  ssh_target-Decided clock args (i ∷ []) (time, duration, procs, seen, selected) =
      elim (Bool-cases (is_null i.ssh_port)) [
        | inl e ↦ rw e (
            inr (
              inr (
                i ∷ [],
                (time, duration, procs, seen, selected),
                inr (i, refl, (is_null_iff i.ssh_port).0 e),
              )))
        | inr e ↦ rw e (record {
          time = time;
          duration = duration;
          procs = procs;
          instance_found = i;
          seen = seen;
          selected = selected;
          has_port = λ q. cc ((is_null_iff i.ssh_port).1 q, e);
          port = refl;
          user = refl;
          command = refl;
        })
      ]

  targeted-Decided :
      (clock : Clock) (args : SshArgs) (found : Found) (time : ℕ)
      → args.wait ≡ true
      → Passes realpath clock (ssh_criteria args) args.ssh_timeout time
      → Ends realpath clock (ssh_criteria args) args.ssh_timeout time found
      → (result : Result SshTarget) × (targeted args (some found) ≡ some result)
        × Decided clock args result
  unfolding ssh_target
  targeted-Decided clock args (err e) time w passes (early, d, procs, seen, raised) =
      (err e, refl, inl (time, d, procs, seen, raised))
  targeted-Decided clock args (ok []) time w passes late =
      (ssh_target args [], refl, inr (inl (w, time, passes, late)))
  targeted-Decided clock args (ok (i ∷ is)) time w passes (early, d, procs, seen, selected) = (
    ssh_target args (i ∷ is),
    refl,
    ssh_target-Decided clock args (i ∷ is) (time, d, procs, seen, selected),
  )

  looked_once :
      (clock : Clock) (args : SshArgs) (found : Found)
      → scan_procs realpath (ssh_criteria args) (clock 0).1 ≡ found
      → (result : Result SshTarget) × (targeted args (some found) ≡ some result)
        × Decided clock args result
  looked_once clock args (err e) h = (err e, refl, inl (0, (clock 0).0, (clock 0).1, refl, h))
  looked_once clock args (ok is) h = (
    ssh_target args is,
    refl,
    ssh_target-Decided clock args is (
      0,
      (clock 0).0,
      (clock 0).1,
      refl,
      scan_procs-Selected realpath (ssh_criteria args) (clock 0).1 is h,
    ),
  )

  ssh_impl_lem :
      (fuel : ℕ) (clock : Clock) (args : SshArgs) {wait : Bool}
      → args.wait ≡ wait
      → ssh_impl fuel clock args
        ≡ targeted args (
            find_transient_instances realpath fuel clock
              (ssh_criteria args)
              (ssh_search_timeout wait args.ssh_timeout))
  unfolding ssh_impl
  ssh_impl_lem fuel clock args w =
      ap
        (λ wait. targeted args (
          find_transient_instances realpath fuel clock (ssh_criteria args)
            (ssh_search_timeout wait args.ssh_timeout)))
        w

  -- The search of `ssh` always ends, with one unit of fuel more than the timeout in seconds. SSH is told to
  -- connect only to the port of an instance that was the only one of that name and store in some pass over
  -- the processes and that has a port, as the user that was asked for and with the command that was given.
  -- Otherwise it raises: a pass raised; or, when waiting was asked for, the time was up and no pass had
  -- found an instance; or some pass found none, several, or one without a port.
  pub ssh_impl-Decided :
      (clock : Clock) (args : SshArgs)
      → (result : Result SshTarget) × (ssh_impl (suc args.ssh_timeout) clock args ≡ some result)
        × Decided clock args result
  ssh_impl-Decided clock args = elim (Bool-cases args.wait) [
    | inl w ↦
        let (found, time, e, passes, ends) =
          find_transient_instances-Ends realpath clock (ssh_criteria args) args.ssh_timeout refl in
        let (result, r, decided) = targeted-Decided clock args found time w passes ends in
        (
          result,
          ssh_impl_lem (suc args.ssh_timeout) clock args w ∙ ap (targeted args) e ∙ r,
          decided,
        )
    | inr w ↦
        let (result, r, decided) =
          looked_once clock args (scan_procs realpath (ssh_criteria args) (clock 0).1) refl in
        (
          result,
          ssh_impl_lem (suc args.ssh_timeout) clock args w
              ∙ ap (targeted args) (
                  find_transient_instances_once realpath args.ssh_timeout clock (ssh_criteria args))
              ∙ r,
          decided,
        )
  ]
