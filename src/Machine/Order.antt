-- ===== src/Machine/Order.antt =====
-- transient/transient.py: nothing is copied out of an image, or removed, while QEMU may run on it.
use transient.Base.{
  All, Bool, List, Option, Result, [], append-nil, err, false, if◌then◌else◌, inl, inr, none, ok,
  refl, some, sym, true, ℕ, ◌++◌, ◌∷◌, ◌≡◌, ◌⊎◌, ap, ◌∙◌,
}
use mathlib.Core.Path.{subst}
use transient.Base.Io.Traces.{Added}
use transient.Base.Io.{pure, ask, ◌>>=◌, ◌>>◌, continue}
use transient.Configuration.{config_requires_ssh_console}
use transient.Base.{ReturnCode}
use transient.Machine.Config.{TransientVm}
use transient.Machine.Run.{
  prepare, do_run, VmAction, poll_qemu, shutdown_qemu, terminate_qemu, wait_qemu, VmWorld, Run,
  post_run, end_console, attend, operate,
}
use transient.Machine.Phases.{
  Working-operate, Preparing-prepare, Preparing, Working, Finishing, TellsEnd, Ended,
  Finishing-post_run,
}

module _ (w : VmWorld) where
  -- If the computation returns, then QEMU has ended.
  abbrev ReturnsEnded : {B : Type 0} → Run B → Type 0
  ReturnsEnded {B} m = (h : List VmAction) (b : B) → (m h).0 ≡ ok b → Ended w (m h).1

  bind-ReturnsEnded :
      {B C : Type 0} (m : Run B) (f : B → Run C)
      → ((b : B) → ReturnsEnded (f b))
      → ReturnsEnded (m >>= f)
  unfolding ◌>>=◌
  bind-ReturnsEnded {B} {C} m f ends h c e = go (m h).0 e
    where
      go : (r : Result B) → (continue r f (m h).1).0 ≡ ok c → Ended w (continue r f (m h).1).1
      go (ok b) k = ends b (m h).1 c k
      go (err x) k = cc

  wait_qemu-ReturnsEnded : ReturnsEnded (ask w wait_qemu)
  unfolding ask
  wait_qemu-ReturnsEnded h b e = (h, wait_qemu, refl, told (w h wait_qemu) e)
    where
      told : (r : Result ReturnCode) → r ≡ ok b → TellsEnd wait_qemu r
      told (ok code) k = tt
      told (err x) k = cc

  -- The shutdown that was not in time is followed by the termination.
  terminated :
      (n : ℕ) (code : ReturnCode) (h : List VmAction) (b : ReturnCode)
      → ((ask w (terminate_qemu n) >> pure code) h).0 ≡ ok b
      → Ended w ((ask w (terminate_qemu n) >> pure code) h).1
  unfolding ◌>>=◌ ask pure
  terminated n code h b e = go (w h (terminate_qemu n)) refl e
    where
      go :
          (r : Result (Unit {0}))
          → w h (terminate_qemu n) ≡ r
          → (continue r (λ _. pure code) (h ++ (terminate_qemu n ∷ []))).0 ≡ ok b
          → Ended w (continue r (λ _. pure code) (h ++ (terminate_qemu n ∷ []))).1
      go (ok u) same k = (h, terminate_qemu n, refl, rw same tt)
      go (err x) same k = cc

  shut_down :
      (n : ℕ) (code : ReturnCode)
      → ReturnsEnded (do
        in_time ← ask w (shutdown_qemu n)
        if in_time then pure tt else ask w (terminate_qemu n)
        pure code)
  unfolding ◌>>=◌ ask pure
  shut_down n code h b e = go (w h (shutdown_qemu n)) refl e
    where
      go :
          (r : Result Bool)
          → w h (shutdown_qemu n) ≡ r
          → (continue r
              (λ in_time. (if in_time then pure tt else ask w (terminate_qemu n)) >> pure code)
              (h ++ (shutdown_qemu n ∷ []))).0
            ≡ ok b
          → Ended w
              (continue r
                (λ in_time. (if in_time then pure tt else ask w (terminate_qemu n)) >> pure code)
                (h ++ (shutdown_qemu n ∷ []))).1
      go (ok true) same k = (h, shutdown_qemu n, refl, rw same tt)
      go (ok false) same k = terminated n code (h ++ (shutdown_qemu n ∷ [])) b k
      go (err x) same k = cc

  end_console-ReturnsEnded : (vm : TransientVm) → ReturnsEnded (end_console w vm)
  unfolding end_console
  end_console-ReturnsEnded vm =
      bind-ReturnsEnded _ _ (λ code. shut_down vm.config.shutdown_timeout code)

  attend-ReturnsEnded : (vm : TransientVm) → ReturnsEnded (attend w vm)
  unfolding attend
  attend-ReturnsEnded vm = bind-ReturnsEnded _ _ λ connected.
      bind-ReturnsEnded _ _
        λ _. bind-ReturnsEnded _ _ λ _. bind-ReturnsEnded _ _ λ _. last connected
    where
      last :
          (connected : TransientVm)
          → ReturnsEnded (
              if config_requires_ssh_console vm.config.needs
              then end_console w connected
              else ask w wait_qemu)
      last connected = branch (config_requires_ssh_console vm.config.needs)
        where
          branch :
              (t : Bool) → ReturnsEnded (if t then end_console w connected else ask w wait_qemu)
          branch true = end_console-ReturnsEnded connected
          branch false = wait_qemu-ReturnsEnded

  polled :
      (vm : TransientVm)
      → ReturnsEnded (do
        early ← ask w poll_qemu
        elim early as (λ _. Run ReturnCode) [ some code ↦ pure code | none ↦ attend w vm ])
  unfolding ◌>>=◌ ask pure
  polled vm h b e = go (w h poll_qemu) refl e
    where
      go :
          (r : Result (Option ReturnCode))
          → w h poll_qemu ≡ r
          → (continue r
              (λ early. elim early as (λ _. Run ReturnCode) [
                | some code ↦ pure code
                | none ↦ attend w vm
              ])
              (h ++ (poll_qemu ∷ []))).0
            ≡ ok b
          → Ended w
              (continue r
                (λ early. elim early as (λ _. Run ReturnCode) [
                  | some code ↦ pure code
                  | none ↦ attend w vm
                ])
                (h ++ (poll_qemu ∷ []))).1
      go (ok (some code)) same k = (h, poll_qemu, refl, rw same tt)
      go (ok none) same k = attend-ReturnsEnded vm (h ++ (poll_qemu ∷ [])) b k
      go (err x) same k = cc

  operate-ReturnsEnded : (vm : TransientVm) → ReturnsEnded (operate w vm)
  unfolding operate
  operate-ReturnsEnded vm = bind-ReturnsEnded _ _ (λ _. bind-ReturnsEnded _ _ (λ _. polled vm))

  -- The new actions of a run, in their order: what prepares it, what is done with QEMU, and what
  -- finishes it, which is only begun if QEMU has ended.
  pub record InOrder (before after : List VmAction) : Type 0 where
    pub preparing : List VmAction
    pub working : List VmAction
    pub finishing : List VmAction
    pub after_eq : after ≡ ((before ++ preparing) ++ working) ++ finishing
    pub each_preparing : All Preparing preparing
    pub each_working : All Working working
    pub each_finishing : All Finishing finishing
    pub ended : (finishing ≡ []) ⊎ Ended w ((before ++ preparing) ++ working)

  finished :
      (before : List VmAction) (vm : TransientVm) (a b : List VmAction)
      → (r : Result ReturnCode) → All Preparing a
      → All Working b
      → ((code : ReturnCode) → r ≡ ok code → Ended w ((before ++ a) ++ b))
      → InOrder before (continue r (λ code. post_run w vm code) ((before ++ a) ++ b)).1
  finished before vm a b (ok code) pa pb ends =
      let c = (Finishing-post_run w vm code).at ((before ++ a) ++ b) in
      record {
        preparing = a;
        working = b;
        finishing = c.new;
        after_eq = c.after_eq;
        each_preparing = pa;
        each_working = pb;
        each_finishing = c.each;
        ended = inr (ends code refl);
      }
  finished before vm a b (err e) pa pb ends = record {
    preparing = a;
    working = b;
    finishing = [];
    after_eq = sym (append-nil ((before ++ a) ++ b));
    each_preparing = pa;
    each_working = pb;
    each_finishing = tt;
    ended = inl refl;
  }

  -- A run in which the handler of SIGCHLD is registered and finds no unasked death of QEMU, so that it does
  -- nothing, does things in this order, whatever the store, the guest and QEMU answer: images are retrieved
  -- and files copied in before QEMU is started; then what is done with QEMU; and files are copied out, or
  -- the temporary state is removed, only after an answer that tells that QEMU has ended.
  pub do_run-InOrder : (vm : TransientVm) (h : List VmAction) → InOrder h (do_run w vm h).1
  unfolding do_run ◌>>=◌
  do_run-InOrder vm h = go (prepare w vm h).0
    where
      prepared : Added Preparing h (prepare w vm h).1
      prepared = (Preparing-prepare w vm).at h

      go :
          (r : Result TransientVm)
          → InOrder h
              (continue r
                (λ ready. operate w ready >>= λ code. post_run w ready code)
                (prepare w vm h).1).1
      go (err e) = record {
        preparing = prepared.new;
        working = [];
        finishing = [];
        after_eq =
            prepared.after_eq
            ∙ sym (append-nil (h ++ prepared.new))
            ∙ sym (append-nil ((h ++ prepared.new) ++ []));
        each_preparing = prepared.each;
        each_working = tt;
        each_finishing = tt;
        ended = inl refl;
      }
      go (ok ready) =
          let g = (prepare w vm h).1 in
          let worked = (Working-operate w ready).at g in
          let eq : (operate w ready g).1 ≡ (h ++ prepared.new) ++ worked.new =
            worked.after_eq ∙ ap (λ l. l ++ worked.new) prepared.after_eq in
          subst
            (λ l. InOrder h (continue (operate w ready g).0 (λ code. post_run w ready code) l).1)
            (sym eq)
            (finished h ready prepared.new worked.new (operate w ready g).0 prepared.each
              worked.each (λ code e. subst (Ended w) eq (operate-ReturnsEnded ready g code e)))
