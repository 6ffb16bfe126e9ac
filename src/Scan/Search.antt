-- ===== src/Scan/Search.antt =====
-- transient/scan.py: `find_transient_instances` tries until it finds an instance or the time is up.
use mathlib.Core.Bool.{and-false}
use transient.Base.Retry
use transient.Base.Retry.{retry, retry-first, before, retry-Ends}
use transient.Base.{
  ℕ, suc, ◌+◌, ◌≤◌, ◌<◌, ◌≡◌, refl, ap, inl, inr, Bool, true, false, not, ◌&&◌, Option, none, some,
  List, [], ◌∷◌, arith, ltb, if◌then◌else◌, Text, lit, runtime_error, Result, ok, err,
}
use transient.Ssh.Connection.{time_between_tries}
use transient.Scan.{Proc, TransientInstance, Criteria, scan_procs}
use transient.Scan.Matches.{Selected, scan_procs-Selected}

-- The environment: how long a pass that is started at a time takes, in seconds, and what it reads.
abbrev pub Clock : Type 0
Clock = ℕ → ℕ × List Proc

abbrev pub Found : Type 0
Found = Result (List TransientInstance)

abbrev in_time : Option ℕ → ℕ → Bool
in_time none elapsed = true
in_time (some timeout) elapsed = ltb elapsed timeout

-- What the loop ends with after a pass: an exception, or the instances, unless there is to be another pass.
abbrev pub after_pass : Option ℕ → Found → Option Found
after_pass timeout (err e) = some (err e)
after_pass none (ok instances) = some (ok instances)
after_pass (some timeout) (ok []) = none
after_pass (some timeout) (ok (i ∷ is)) = some (ok (i ∷ is))

abbrev needs_criteria : Criteria → Option ℕ → Bool
needs_criteria c timeout =
    elim c.name [ none ↦ not c.with_ssh | some name ↦ false ]
    && elim timeout [ none ↦ false | some t ↦ true ]

module _ (realpath : Text → Text) where
  abbrev pass : Clock → Criteria → Option ℕ → ℕ → ℕ × Option Found
  pass clock c timeout t =
      let (duration, procs) = clock t in
      (duration, after_pass timeout (scan_procs realpath c procs))

  -- The loop, with the time that has passed; none if the fuel runs out.
  unfoldable search : ℕ → Clock → Criteria → Option ℕ → ℕ → Option Found
  unfolding retry
  search fuel clock c timeout elapsed =
      retry time_between_tries (in_time timeout) (ok []) (pass clock c timeout) fuel elapsed

  unfoldable pub find_transient_instances : ℕ → Clock → Criteria → Option ℕ → Option Found
  unfolding search lit
  find_transient_instances fuel clock c timeout =
      if needs_criteria c timeout
      then some (
          err (
            runtime_error (
              lit
                "find_transient_instances: 'timeout' cannot be specified without either 'name' or 'with_ssh'")))
      else search fuel clock c timeout 0

  module _ (clock : Clock) (c : Criteria) (timeout : ℕ) where
    -- The times at which a pass is started: each after a pass in which no process matched.
    pub data Passes : ℕ → Type 0 where
      first : Passes 0
      later :
          {t : ℕ} (duration : ℕ) (procs : List Proc)
          → Passes t
          → t < timeout
          → clock t ≡ (duration, procs)
          → Selected realpath c procs []
          → Passes ((t + duration) + time_between_tries)

    -- How the search ends at a time: without an instance when the time is up, with those of one pass,
    -- or with the exception of one.
    abbrev pub Ends : ℕ → Found → Type 0
    Ends t (ok []) = timeout ≤ t
    Ends t (ok (i ∷ is)) =
        (t < timeout)
        × (duration : ℕ) × (procs : List Proc) × (clock t ≡ (duration, procs))
        × Selected realpath c procs (i ∷ is)
    Ends t (err e) =
        (t < timeout)
        × (duration : ℕ) × (procs : List Proc) × (clock t ≡ (duration, procs))
        × (scan_procs realpath c procs ≡ err e)

    -- A pass that does not end the loop found no instance, and one that does decides.
    finding_none :
        (d : ℕ) (p : ℕ × List Proc) (found : Found)
        → scan_procs realpath c p.1 ≡ found
        → ◌≡◌ {A = ℕ × Option Found} (p.0, after_pass (some timeout) found) (d, none)
        → (p ≡ (d, p.1)) × Selected realpath c p.1 []
    finding_none d (k, procs) (err e) h same = cc
    finding_none d (k, procs) (ok (i ∷ is)) h same = cc
    finding_none d (k, procs) (ok []) h same = (cc same, scan_procs-Selected realpath c procs [] h)

    deciding :
        (t d : ℕ) (p : ℕ × List Proc) (r found : Found)
        → clock t ≡ p
        → t < timeout
        → scan_procs realpath c p.1 ≡ found
        → ◌≡◌ {A = ℕ × Option Found} (p.0, after_pass (some timeout) found) (d, some r)
        → Ends t r
    deciding t d (k, procs) r (ok []) e early h same = cc
    deciding t d (k, procs) r (err x) e early h same =
        let is_r : r ≡ err x = cc same in rw is_r (early, k, procs, e, h)
    deciding t d (k, procs) r (ok (i ∷ is)) e early h same =
        let is_r : r ≡ ok (i ∷ is) = cc same in
        rw is_r (early, k, procs, e, scan_procs-Selected realpath c procs (i ∷ is) h)

    passes :
        {t : ℕ}
        → Retry.Attempts time_between_tries timeout (ok []) (pass clock c (some timeout)) t
        → Passes t
    passes Retry.first = first
    passes (Retry.later {t} d earlier early h) =
        let (same, selected) =
          finding_none d (clock t) (scan_procs realpath c (clock t).1) refl h in
        later d (clock t).1 (passes earlier) early same selected

    ends :
        (t : ℕ) (r : Found)
        → Retry.Ends time_between_tries timeout (ok []) (pass clock c (some timeout)) t r
        → Ends t r
    ends t r (inr (d, early, h)) =
        deciding t d (clock t) r (scan_procs realpath c (clock t).1) refl early refl h
    ends t r (inl (late, h)) = rw h late

    -- A search with a timeout, for a name or for SSH, ends: with one unit of fuel more than the timeout in
    -- seconds there is always a result. It was preceded by passes that were in time and in which no process
    -- matched; it is empty only when the time is up, and otherwise it is, of one pass in time, exactly the
    -- instances of the processes that match, in their order, or the exception that reading one raised.
    pub find_transient_instances-Ends :
        needs_criteria c (some timeout) ≡ false
        → (found : Found) × (t : ℕ) × (find_transient_instances (suc timeout) clock c (some timeout)
            ≡ some found)
          × Passes t
          × Ends t found
    unfolding find_transient_instances
    find_transient_instances-Ends named =
        let (r, t, made, earlier, end) =
          retry-Ends time_between_tries timeout (ok []) (pass clock c (some timeout))
            (omega arith) in
        rw named (r, t, made, passes earlier, ends t r end)

  -- Without a timeout there is one pass.
  pub find_transient_instances_once :
      (fuel : ℕ) (clock : Clock) (c : Criteria)
      → find_transient_instances (suc fuel) clock c none ≡ some (scan_procs realpath c (clock 0).1)
  unfolding find_transient_instances search
  find_transient_instances_once fuel clock c =
      rw (and-false (elim c.name [ none ↦ not c.with_ssh | some name ↦ false ])) (
        retry-first time_between_tries (in_time none) (ok []) (pass clock c none) fuel refl
          (ap (λ r. ((clock 0).0, r)) (at_once (scan_procs realpath c (clock 0).1))))
    where
      at_once : (found : Found) → after_pass none found ≡ some found
      at_once (ok instances) = refl
      at_once (err e) = refl
