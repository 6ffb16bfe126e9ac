-- ===== src/Qemu/Connection.antt =====
-- transient/qemu.py, `QmpClient.connect`: tries until the monitor's socket is there or the time is up.
-- Times are in tenths of a second.
use transient.Base.Retry
use transient.Base.Retry.{retry, before, retry-Ends}
use transient.Base.{
  ℕ, suc, ◌+◌, ◌≤◌, ◌<◌, ◌≡◌, refl, ◌⊎◌, inl, inr, Bool, true, false, Option, none, some, arith,
  if◌then◌else◌, Bool-cases, Exn, os_error, file_not_found, Result, ok, err,
}

-- What an attempt comes to: it ends after a time, with what it raises if it does; or it never ends, since the
-- greeting and the answer are read without a timeout. An attempt connects, reads the greeting, and enables the
-- commands.
pub data Attempt : Type 0 where
  takes : ℕ → Result (Unit {0}) → Attempt
  hangs : Attempt

-- The environment: what an attempt that is started at a time comes to.
abbrev pub Monitor : Type 0
Monitor = ℕ → Attempt

-- What connecting comes to: a time at which the client is connected or what is raised, or it blocks for ever.
pub data Connecting : Type 0 where
  returns : Result ℕ → Connecting
  blocks : Connecting

-- `_QMP_DELAY_BETWEEN`
abbrev pub qmp_delay_between : ℕ
qmp_delay_between = 2

-- `except FileNotFoundError`
abbrev pub is_file_not_found : Exn → Bool
is_file_not_found file_not_found = true
is_file_not_found e = false

-- What the loop ends with after an attempt.
abbrev pub after_attempt : ℕ → Result (Unit {0}) → Option Connecting
after_attempt at (ok u) = some (returns (ok at))
after_attempt at (err e) = if is_file_not_found e then none else some (returns (err e))

-- An attempt in which the loop hangs is its last.
abbrev timed : ℕ → Attempt → ℕ × Option Connecting
timed t (takes duration result) = (duration, after_attempt (t + duration) result)
timed t hangs = (0, some blocks)

abbrev attempt : Monitor → ℕ → ℕ × Option Connecting
attempt monitor t = timed t (monitor t)

-- The loop, with the time that has passed; none if the fuel runs out. `ConnectionRefusedError` is an `OSError`.
unfoldable pub connect : ℕ → Monitor → ℕ → ℕ → Option Connecting
unfolding retry
connect fuel monitor timeout elapsed =
    retry qmp_delay_between (before timeout) (returns (err os_error)) (attempt monitor) fuel elapsed

-- The times at which attempts are started: each in time, and after one that found no socket.
pub data Attempts (monitor : Monitor) (timeout : ℕ) : ℕ → Type 0 where
  first : Attempts monitor timeout 0
  later :
      {t : ℕ} (duration : ℕ) (e : Exn)
      → Attempts monitor timeout t
      → t < timeout
      → monitor t ≡ takes duration (err e)
      → is_file_not_found e ≡ true
      → Attempts monitor timeout ((t + duration) + qmp_delay_between)

-- How it ends at a time: connected by an attempt in time, with the exception of one, refused, or not at all, since
-- an attempt in time never ends.
abbrev pub Ends : Monitor → ℕ → ℕ → Connecting → Type 0
Ends monitor timeout t blocks = (t < timeout) × (monitor t ≡ hangs)
Ends monitor timeout t (returns (ok at)) =
    (duration : ℕ) × (t < timeout) × (monitor t ≡ takes duration (ok tt)) × (at ≡ t + duration)
Ends monitor timeout t (returns (err e)) =
    ((timeout ≤ t) × (e ≡ os_error))
    ⊎ ((duration : ℕ) × (t < timeout)
        × (monitor t ≡ takes duration (err e))
        × (is_file_not_found e ≡ false))

-- An attempt that does not end the loop found no socket, and one that does decides.
missing :
    (t d : ℕ) (p : Attempt)
    → ◌≡◌ {A = ℕ × Option Connecting} (timed t p) (d, none)
    → (e : Exn) × (p ≡ takes d (err e)) × (is_file_not_found e ≡ true)
missing t d hangs h = cc
missing t d (takes k (ok u)) h = cc
missing t d (takes k (err e)) h = elim (Bool-cases (is_file_not_found e)) [
  | inl m ↦ (e, cc (h), m)
  | inr o ↦ cc (rw o at h)
]

deciding :
    (monitor : Monitor) (timeout t d : ℕ) (p : Attempt) (r : Connecting)
    → monitor t ≡ p
    → t < timeout
    → ◌≡◌ {A = ℕ × Option Connecting} (timed t p) (d, some r)
    → Ends monitor timeout t r
deciding monitor timeout t d hangs r same early h =
    let is_r : r ≡ blocks = cc h in rw is_r (early, same)
deciding monitor timeout t d (takes k (ok u)) r same early h =
    let is_r : r ≡ returns (ok (t + k)) = cc h in rw is_r (k, early, same, refl)
deciding monitor timeout t d (takes k (err e)) r same early h =
    elim (Bool-cases (is_file_not_found e)) [
      | inl m ↦ cc (rw m at h)
      | inr o ↦ let is_r : r ≡ returns (err e) = cc (rw o at h) in rw is_r (inr (k, early, same, o))
    ]

module _ (monitor : Monitor) (timeout : ℕ) where
  attempts :
      {t : ℕ}
      → Retry.Attempts qmp_delay_between timeout (returns (err os_error)) (attempt monitor) t
      → Attempts monitor timeout t
  attempts Retry.first = first
  attempts (Retry.later {t} d earlier early h) =
      let (e, same, m) = missing t d (monitor t) h in later d e (attempts earlier) early same m

  ends :
      (t : ℕ) (r : Connecting)
      → Retry.Ends qmp_delay_between timeout (returns (err os_error)) (attempt monitor) t r
      → Ends monitor timeout t r
  ends t r (inr (d, early, h)) = deciding monitor timeout t d (monitor t) r refl early h
  ends t r (inl (late, h)) = rw h (inl (late, refl))

-- The loop that connects to the monitor ends, or blocks in an attempt that never ends: with one unit of fuel
-- more than the timeout in tenths of a second it comes to one of these, since attempts are at least two tenths
-- apart. Before the last attempt every attempt was in time, ended, and found no socket. If it connects, it is by
-- a last attempt that is in time and succeeds; it raises what such an attempt raises if that is not that the
-- socket is missing; it is refused only when the time is up; and it blocks, whatever the timeout, exactly in an
-- attempt in time that never ends.
pub connect-Ends :
    (monitor : Monitor) (timeout : ℕ)
    → (result : Connecting) × (t : ℕ) × (connect (suc timeout) monitor timeout 0 ≡ some result)
      × Attempts monitor timeout t
      × Ends monitor timeout t result
unfolding connect
connect-Ends monitor timeout =
    let (r, t, made, earlier, end) =
      retry-Ends qmp_delay_between timeout (returns (err os_error)) (attempt monitor)
        (omega arith) in
    (r, t, made, attempts monitor timeout earlier, ends monitor timeout t r end)
