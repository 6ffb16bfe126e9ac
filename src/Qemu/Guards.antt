-- ===== src/Qemu/Guards.antt =====
-- transient/qemu.py: operations on a process that was not started, and how a process is ended.
use transient.Base.{
  ℕ, ◌≡◌, refl, sym, ap, ◌∙◌, ◌⊎◌, inl, inr, Bool, true, false, not, Option, none, some, List, [],
  ◌∷◌, ◌++◌, append_assoc, if◌then◌else◌, Text, Exn, transient_error, process_error, lock_held,
  runtime_error, value_error, type_error, key_error, index_error, attribute_error, assertion_error,
  os_error, file_not_found, timeout_expired, Result, ok, err,
}
use transient.Base.{ReturnCode}
use mathlib.Core.Path.{subst}
use transient.Base.Io.{continue, ◌>>◌, World, Io, pure, raise, perform, ◌>>=◌}
use transient.Qemu.Runner.{
  send_terminate, wait_or_kill, send_kill, or_kill, RunAction, QemuRunner, wait, shutdown, kill,
  terminate, returncode, is_running, act, wait_process,
}

-- The operation raises `RuntimeError` and asks nothing of a process.
abbrev pub Refuses : {B : Type 0} → Io RunAction B → Type 0
Refuses m = (h : List RunAction) → (message : Text) × (m h ≡ (err (runtime_error message), h))

refused :
    {B : Type 0} (b : Bool) (message : Text) (m : Io RunAction B)
    → b ≡ false
    → Refuses (if not b then raise (runtime_error message) else m)
unfolding raise
refused b message m e = λ h. (message, rw e)

refused_first :
    {B : Type 0} (a b : Bool) (message message' : Text) (m : Io RunAction B)
    → b ≡ false
    → Refuses (
        if not a
        then raise (runtime_error message)
        else if not b
        then raise (runtime_error message')
        else m)
unfolding raise
refused_first true b message message' m e = refused b message' m e
refused_first false b message message' m e = λ h. (message, refl)

-- No operation touches a process that was not started: each raises `RuntimeError` at once, whichever
-- the timeout, and nothing is running.
not_started-Refuses :
    (w : World RunAction (Option ReturnCode)) (r : QemuRunner) (timeout : Option ℕ)
    → r.started ≡ false
    → Refuses (wait w timeout r)
      × Refuses (shutdown w timeout r)
      × Refuses (terminate w timeout r)
      × Refuses (kill w r)
      × Refuses (returncode w r)
      × ((h : List RunAction) → is_running w r h ≡ (ok false, h))
unfolding wait shutdown terminate kill returncode is_running pure
not_started-Refuses w r timeout e = (
  refused r.started _ _ e,
  refused_first r.has_qmp_client r.started _ _ _ e,
  refused r.started _ _ e,
  refused r.started _ _ e,
  refused r.started _ _ e,
  λ h. rw e,
)

-- How the process was ended, after other actions: the wait in time was answered; or its time ran out, the
-- process was killed, and the wait for the killed one was answered. Nothing else was asked.
abbrev pub Reaped :
    World RunAction (Option ReturnCode) → ℕ → List RunAction → List RunAction → Type 0
Reaped w n h after =
    ((code : Option ReturnCode) × (w h (wait_process (some n)) ≡ ok code)
      × (after ≡ h ++ (wait_process (some n) ∷ [])))
    ⊎ ((code : Option ReturnCode) × (w h (wait_process (some n)) ≡ err timeout_expired)
        × (w (h ++ (wait_process (some n) ∷ send_kill ∷ [])) (wait_process none) ≡ ok code)
        × (after ≡ h ++ (wait_process (some n) ∷ send_kill ∷ wait_process none ∷ [])))

module _ (w : World RunAction (Option ReturnCode)) (r : QemuRunner)
    (started : r.started ≡ true) where
  -- A step that succeeded, as it is in a `do` block.
  act_ok :
      (a : RunAction) (h : List RunAction)
      → (act w a h).0 ≡ ok tt
      → (code : Option ReturnCode) × (w h a ≡ ok code)
  unfolding act ◌>>=◌ perform pure
  act_ok a h e = go (w h a) refl e
    where
      go :
          (answer : Result (Option ReturnCode))
          → w h a ≡ answer
          → (continue answer (λ _. pure tt) (h ++ (a ∷ []))).0 ≡ ok tt
          → (code : Option ReturnCode) × (w h a ≡ ok code)
      go (ok code) same k = (code, same)
      go (err e) same k = cc

  act_trace : (a : RunAction) (h : List RunAction) → (act w a h).1 ≡ h ++ (a ∷ [])
  unfolding act ◌>>=◌ perform pure
  act_trace a h = go (w h a)
    where
      go :
          (answer : Result (Option ReturnCode))
          → (continue answer (λ _. pure tt) (h ++ (a ∷ []))).1 ≡ h ++ (a ∷ [])
      go (ok code) = refl
      go (err e) = refl

  act_err : (a : RunAction) (x : Exn) (h : List RunAction) → (act w a h).0 ≡ err x → w h a ≡ err x
  unfolding act ◌>>=◌ perform pure
  act_err a x h e = go (w h a) refl e
    where
      go :
          (answer : Result (Option ReturnCode))
          → w h a ≡ answer
          → (continue answer (λ _. pure tt) (h ++ (a ∷ []))).0 ≡ err x
          → w h a ≡ err x
      go (ok code) same k = cc
      go (err y) same k = same ∙ k_err y k
        where
          k_err :
              (y : Exn)
              → ◌≡◌ {A = Result (Unit {0})} (err y) (err x)
              → ◌≡◌ {A = Result (Option ReturnCode)} (err y) (err x)
          k_err y k = cc

  after_ok :
      (m n : Io RunAction (Unit {0})) (h : List RunAction)
      → ((m >> n) h).0 ≡ ok tt
      → (m >> n) h ≡ n (m h).1
  unfolding ◌>>=◌
  after_ok m n h e = go (m h).0 e
    where
      go :
          (result : Result (Unit {0}))
          → (continue result (λ _. n) (m h).1).0 ≡ ok tt
          → continue result (λ _. n) (m h).1 ≡ n (m h).1
      go (ok u) k = refl
      go (err x) k = cc

  kill_run : kill w r ≡ act w send_kill >> act w (wait_process none)
  unfolding kill
  kill_run = rw started

  killed :
      (h : List RunAction)
      → (kill w r h).0 ≡ ok tt
      → (code : Option ReturnCode) × (w (h ++ (send_kill ∷ [])) (wait_process none) ≡ ok code)
        × ((kill w r h).1 ≡ (h ++ (send_kill ∷ [])) ++ (wait_process none ∷ []))
  killed h e =
      let at = ap (λ (m : Io RunAction (Unit {0})). m h) kill_run in
      let run =
        at
        ∙ after_ok (act w send_kill) (act w (wait_process none)) h (ap (λ p. p.0) (sym at) ∙ e)
        ∙ ap (act w (wait_process none)) (act_trace send_kill h) in
      let (code, answer) =
        act_ok (wait_process none) (h ++ (send_kill ∷ [])) (ap (λ p. p.0) (sym run) ∙ e) in
      (code, answer, ap (λ p. p.1) run ∙ act_trace (wait_process none) (h ++ (send_kill ∷ [])))

  wait_or_kill-Reaped :
      (n : ℕ) (h : List RunAction)
      → (wait_or_kill w n r h).0 ≡ ok tt
      → Reaped w n h (wait_or_kill w n r h).1
  unfolding wait_or_kill
  wait_or_kill-Reaped n h e = go (act w (wait_process (some n)) h).0 refl e
    where
      overdue :
          (g : List RunAction)
          → g ≡ h ++ (wait_process (some n) ∷ [])
          → w h (wait_process (some n)) ≡ err timeout_expired
          → (kill w r g).0 ≡ ok tt
          → Reaped w n h (kill w r g).1
      overdue g at late k =
          let (code, answer, trace) = killed g k in
          let behind = ap (λ l. l ++ (send_kill ∷ [])) at ∙ append_assoc h _ _ in
          inr (
            code,
            late,
            ap (λ l. w l (wait_process none)) (sym behind) ∙ answer,
            trace ∙ ap (λ l. l ++ (wait_process none ∷ [])) behind ∙ append_assoc h _ _,
          )

      go :
          (result : Result (Unit {0}))
          → (act w (wait_process (some n)) h).0 ≡ result
          → (or_kill w r result (act w (wait_process (some n)) h).1).0 ≡ ok tt
          → Reaped w n h (or_kill w r result (act w (wait_process (some n)) h).1).1
      go (ok u) same k =
          let (code, answer) = act_ok (wait_process (some n)) h same in
          inl (code, answer, act_trace (wait_process (some n)) h)
      go (err timeout_expired) same k =
          overdue (act w (wait_process (some n)) h).1 (act_trace (wait_process (some n)) h)
            (act_err (wait_process (some n)) timeout_expired h same) k
      go (err (transient_error m)) same k = cc
      go (err (process_error m)) same k = cc
      go (err (lock_held m)) same k = cc
      go (err (runtime_error m)) same k = cc
      go (err value_error) same k = cc
      go (err type_error) same k = cc
      go (err key_error) same k = cc
      go (err index_error) same k = cc
      go (err attribute_error) same k = cc
      go (err assertion_error) same k = cc
      go (err os_error) same k = cc
      go (err file_not_found) same k = cc

  terminate_run : (n : ℕ) → terminate w (some n) r ≡ act w send_terminate >> wait_or_kill w n r
  unfolding terminate ◌>>=◌
  terminate_run n = rw started

  -- If `terminate` with a time to wait returns, the process has ended: it was asked to terminate and
  -- waited for; and exactly if the time had run out it was killed, and waited for again. The last wait was
  -- answered, and nothing else was asked.
  pub terminate-Reaped :
      (n : ℕ) (h : List RunAction)
      → (terminate w (some n) r h).0 ≡ ok tt
      → Reaped w n (h ++ (send_terminate ∷ [])) (terminate w (some n) r h).1
  terminate-Reaped n h e =
      let at = ap (λ (m : Io RunAction (Unit {0})). m h) (terminate_run n) in
      let run =
        at
        ∙ after_ok (act w send_terminate) (wait_or_kill w n r) h (ap (λ p. p.0) (sym at) ∙ e)
        ∙ ap (wait_or_kill w n r) (act_trace send_terminate h) in
      subst (λ p. Reaped w n (h ++ (send_terminate ∷ [])) p.1) (sym run)
        (wait_or_kill-Reaped n (h ++ (send_terminate ∷ [])) (ap (λ p. p.0) (sym run) ∙ e))
