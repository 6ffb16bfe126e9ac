-- ===== src/Sshfs/Slots.antt =====
-- transient/sshfs.py: the slots of the semaphore, and what a waiter learns.
use transient.Base.{
  contains, ℕ, zero, suc, ◌+◌, ◌≤◌, ◌≡◌, refl, ap, ◌≢◌, ◌↔◌, ◌⊎◌, inl, inr, Bool, true, false, not,
  ◌||◌, Option, none, some, List, [], ◌∷◌, ◌++◌, arith, ◌==◌, if◌then◌else◌, Bool-cases, All, lit,
  Exn, runtime_error, Result, ok, err,
}
use transient.Sshfs.{
  Phase, starting, waiting, connecting, settling, mounted, closed, failed, SshfsThread, new_thread,
  Event, server_started, slot_acquired, connected, marker_timeout, marker_read, sshfs_ended,
  sshfs_runs, ssh_ended, advance, wait_for_mount, max_concurrent_sshfs,
}

-- The semaphore's free slots and all threads.
pub record Threads : Type 0 where
  pub free : ℕ
  pub threads : List SshfsThread

-- Threads that are new, as many as there are folders.
abbrev new_threads : ℕ → List SshfsThread
new_threads zero = []
new_threads (suc n) = new_thread ∷ new_threads n

-- One of the threads meets an event.
pub data Step (s s' : Threads) : Type 0 where
  advances :
      (before after : List SshfsThread) (t t' : SshfsThread) (event : Event)
      → s.threads ≡ before ++ (t ∷ after)
      → advance s.free t.phase t event ≡ some (s'.free, t')
      → s'.threads ≡ before ++ (t' ∷ after)
      → Step s s'

pub data Reach (folders : ℕ) : Threads → Type 0 where
  start : Reach folders (record { free = max_concurrent_sshfs; threads = new_threads folders })
  next : {s s' : Threads} → Reach folders s → Step s s' → Reach folders s'

abbrev pub holds : Phase → ℕ
holds connecting = 1
holds phase = 0

-- How many threads hold a slot
abbrev pub connecting_threads : List SshfsThread → ℕ
connecting_threads [] = 0
connecting_threads (t ∷ ts) = holds t.phase + connecting_threads ts

-- What the event and the exception of a thread are in each phase.
abbrev pub Tells : Phase → Bool → Option Exn → Type 0
Tells mounted complete exception = (complete ≡ true) × (exception ≡ none)
Tells closed complete exception = (complete ≡ true) × (exception ≡ none)
Tells failed complete exception = (complete ≡ true) × (exception ≢ none)
Tells phase complete exception = (complete ≡ false) × (exception ≡ none)

abbrev pub IsConsistent : SshfsThread → Type 0
IsConsistent t = Tells t.phase t.is_complete t.exception

some_pair :
    {a c : ℕ} {b d : SshfsThread}
    → ◌≡◌ {A = Option (ℕ × SshfsThread)} (some (a, b)) (some (c, d))
    → (a ≡ c) × (b ≡ d)
some_pair h = (cc, cc)

advance_lem :
    (free : ℕ) (phase : Phase) (t : SshfsThread) (event : Event) (free' : ℕ) (t' : SshfsThread)
    → advance free phase t event ≡ some (free', t')
    → Tells phase t.is_complete t.exception
    → IsConsistent t' × (free' + holds t'.phase ≡ free + holds phase)
unfolding advance
advance_lem free starting t (server_started (ok server)) free' t' h k =
    let (a, b) = some_pair h in rw (← a, ← b) (k, refl)
advance_lem free starting t (server_started (err e)) free' t' h k =
    let (a, b) = some_pair h in rw (← a, ← b) ((refl, λ q. cc), refl)
advance_lem (suc free) waiting t slot_acquired free' t' h k =
    let (a, b) = some_pair h in rw (← a, ← b) (k, omega arith)
advance_lem free connecting t (connected (ok u)) free' t' h k =
    let (a, b) = some_pair h in rw (← a, ← b) (k, refl)
advance_lem free connecting t (connected (err e)) free' t' h k =
    let (a, b) = some_pair h in rw (← a, ← b) ((refl, λ q. cc), omega arith)
advance_lem free connecting t (marker_timeout output) free' t' h k =
    let (a, b) = some_pair h in rw (← a, ← b) ((refl, λ q. cc), omega arith)
advance_lem free connecting t marker_read free' t' h k =
    let (a, b) = some_pair h in rw (← a, ← b) (k, omega arith)
advance_lem free settling t (sshfs_ended stderr) free' t' h k =
    let (a, b) = some_pair h in rw (← a, ← b) ((refl, λ q. cc), refl)
advance_lem free settling t (sshfs_runs false) free' t' h k =
    let (a, b) = some_pair h in rw (← a, ← b) ((refl, λ q. cc), refl)
advance_lem free settling t (sshfs_runs true) free' t' h k =
    let (a, b) = some_pair h in rw (← a, ← b) ((refl, k.1), refl)
advance_lem free mounted t (ssh_ended returncode stderr) free' t' h k =
    elim (Bool-cases (returncode == 0 || contains (lit "closed by remote host") stderr)) [
      | inl e ↦ let (a, b) = some_pair (rw e at h) in rw (← a, ← b) (k, refl)
      | inr e ↦ let (a, b) = some_pair (rw e at h) in rw (← a, ← b) ((refl, λ q. cc), refl)
    ]
advance_lem free phase t event free' t' h k = cc

-- What holds of the semaphore and the threads.
pub record IsSound (s : Threads) : Type 0 where
  pub slots : s.free + connecting_threads s.threads ≡ max_concurrent_sshfs
  pub consistent : All IsConsistent s.threads

new_threads-IsConsistent : (n : ℕ) → All IsConsistent (new_threads n)
new_threads-IsConsistent zero = tt
new_threads-IsConsistent (suc n) = ((refl, refl), new_threads-IsConsistent n)

connecting-new_threads : (n : ℕ) → connecting_threads (new_threads n) ≡ 0
connecting-new_threads zero = refl
connecting-new_threads (suc n) = omega (arith, connecting-new_threads n)

connecting-append :
    (a b : List SshfsThread)
    → connecting_threads (a ++ b) ≡ connecting_threads a + connecting_threads b
connecting-append [] b = omega arith
connecting-append (t ∷ a) b = omega (arith, connecting-append a b)

All-middle :
    (a : List SshfsThread) (t : SshfsThread) (b : List SshfsThread)
    → All IsConsistent (a ++ (t ∷ b))
    → IsConsistent t × ((t' : SshfsThread) → IsConsistent t' → All IsConsistent (a ++ (t' ∷ b)))
All-middle [] t b h = (h.0, λ t' k. (k, h.1))
All-middle (x ∷ a) t b h =
    let (here, others) = All-middle a t b h.1 in (here, λ t' k. (h.0, others t' k))

Step-IsSound : {s s' : Threads} → Step s s' → IsSound s → IsSound s'
Step-IsSound {s} {s'} (advances before after t t' event is_in moved becomes) sound =
    let (here, others) = All-middle before t after (rw is_in at sound.consistent) in
    let (k, slots) = advance_lem s.free t.phase t event s'.free t' moved here in
    record {
      slots = omega (
        arith,
        sound.slots,
        slots,
        ap connecting_threads is_in,
        ap connecting_threads becomes,
        connecting-append before (t ∷ after),
        connecting-append before (t' ∷ after),
      );
      consistent = rw becomes (others t' k);
    }

Reach-IsSound : {folders : ℕ} {s : Threads} → Reach folders s → IsSound s
Reach-IsSound {folders} start = record {
  slots = omega (arith, connecting-new_threads folders);
  consistent = new_threads-IsConsistent folders;
}
Reach-IsSound (next r st) = Step-IsSound st (Reach-IsSound r)

-- A thread whose folder was mounted, and has not failed since.
abbrev pub WasMounted : SshfsThread → Type 0
WasMounted t = (t.phase ≡ mounted) ⊎ (t.phase ≡ closed)

wait_for_mount_lem : (t : SshfsThread) → IsConsistent t → (wait_for_mount t ≡ ok tt) ↔ WasMounted t
unfolding wait_for_mount
wait_for_mount_lem t k = go t.phase t.is_complete t.exception k
  where
    go :
        (p : Phase) (complete : Bool) (exception : Option Exn)
        → Tells p complete exception
        → ((if not complete
              then err (runtime_error (lit "SSHFS mount timed out"))
              else elim exception as (λ _. Result (Unit {0})) [
                | some e ↦ err (runtime_error (lit "SSHFS mount failed"))
                | none ↦ ok tt
              ])
            ≡ ok tt)
          ↔ ((p ≡ mounted) ⊎ (p ≡ closed))
    go mounted c x (a, b) = (λ _. inl refl, λ _. rw (a, b) refl)
    go closed c x (a, b) = (λ _. inr refl, λ _. rw (a, b) refl)
    go failed true none (a, b) = absurd (b refl)
    go failed true (some e) (a, b) = (λ h. cc, λ h. elim h [ inl q ↦ cc | inr q ↦ cc ])
    go failed false x (a, b) = cc
    go p true x (a, b) = cc
    go starting false x (a, b) = (λ h. cc, λ h. elim h [ inl q ↦ cc | inr q ↦ cc ])
    go waiting false x (a, b) = (λ h. cc, λ h. elim h [ inl q ↦ cc | inr q ↦ cc ])
    go connecting false x (a, b) = (λ h. cc, λ h. elim h [ inl q ↦ cc | inr q ↦ cc ])
    go settling false x (a, b) = (λ h. cc, λ h. elim h [ inl q ↦ cc | inr q ↦ cc ])

All-map :
    {P Q : SshfsThread → Type 0} (ts : List SshfsThread)
    → ((t : SshfsThread) → P t → Q t)
    → All P ts
    → All Q ts
All-map [] f h = tt
All-map (t ∷ ts) f h = (f t h.0, All-map ts f h.1)

-- However many folders there are and whatever their threads meet, in any order: the free slots of the
-- semaphore and the threads that are connecting are 8 together, so at most 8 connect at once and no slot
-- is lost when a thread fails; and `wait_for_mount` returns for a thread exactly when its folder was
-- mounted and it has not failed since, and raises otherwise.
pub Reach-IsBounded :
    (folders : ℕ) (s : Threads)
    → Reach folders s
    → (s.free + connecting_threads s.threads ≡ 8)
      × (connecting_threads s.threads ≤ 8)
      × All (λ t. (wait_for_mount t ≡ ok tt) ↔ WasMounted t) s.threads
Reach-IsBounded folders s r =
    let sound = Reach-IsSound r in
    (sound.slots, omega (arith, sound.slots), All-map s.threads wait_for_mount_lem sound.consistent)
