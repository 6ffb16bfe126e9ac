-- ===== src/Ssh/Connection.antt =====
-- transient/ssh.py: `SshClient.__timed_connection` tries until the guest answers or the time is up.
use transient.Base.Retry
use transient.Base.Retry.{retry, before, retry-Ends}
use transient.Base.{
  ℕ, suc, ◌+◌, ◌≤◌, ◌<◌, ◌≡◌, refl, ◌≢◌, ◌⊎◌, inl, inr, Bool, true, false, Option, none, some,
  arith, ◌==◌, if◌then◌else◌, ==_iff, Bool-cases, lit, Exn, runtime_error, value_error, Result, ok,
  err,
}

-- How the probing process ends: with a return code, for 255 with what it wrote to its standard error, which may
-- not be UTF-8; by a signal, whose number is the negative return code; or with an exception of `subprocess.run`,
-- which is not caught: `TimeoutExpired`, or `FileNotFoundError` or another `OSError` if it cannot be started.
pub data ProbeResult : Type 0 where
  exited : ℕ → Bool → ProbeResult
  signalled : ℕ → ProbeResult
  raised : Exn → ProbeResult

-- The environment: how long a probe that is started at a time takes, in seconds, and how it ends.
abbrev pub Guest : Type 0
Guest = ℕ → ℕ × ProbeResult

-- `SSH_CONNECTION_TIME_BETWEEN_TRIES`
abbrev pub time_between_tries : ℕ
time_between_tries = 2

abbrev pub probe_failed : ℕ → Exn
probe_failed code = runtime_error (lit "ssh connection failed with return code")

abbrev pub no_connection : Exn
no_connection = runtime_error (lit "Failed to connect")

-- What the loop ends with after a probe that is over at a time; the messages leave out the numbers and the
-- command.
abbrev pub after_probe : ℕ → ProbeResult → Option (Result ℕ)
after_probe at (raised e) = some (err e)
after_probe at (signalled sig) = some (err (probe_failed sig))
after_probe at (exited code is_utf8) =
    if code == 255
    then (if is_utf8 then none else some (err value_error))
    else if code == 0
    then some (ok at)
    else some (err (probe_failed code))

abbrev probe : Guest → ℕ → ℕ × Option (Result ℕ)
probe guest t = let (duration, result) = guest t in (duration, after_probe (t + duration) result)

-- The loop, with the time that has passed. The result is the time at which the real connection is made, and
-- none if the fuel runs out.
unfoldable pub timed_connection : ℕ → Guest → ℕ → ℕ → Option (Result ℕ)
unfolding retry
timed_connection fuel guest timeout elapsed =
    retry time_between_tries (before timeout) (err no_connection) (probe guest) fuel elapsed

-- The times at which probes are started: each before the timeout, and after one that failed to connect.
pub data Tries (guest : Guest) (timeout : ℕ) : ℕ → Type 0 where
  first : Tries guest timeout 0
  again :
      {t : ℕ} (duration : ℕ)
      → Tries guest timeout t
      → t < timeout
      → guest t ≡ (duration, exited 255 true)
      → Tries guest timeout ((t + duration) + time_between_tries)

-- Which exception a try raises: the one of the process that was not run to its end, a decoding error, or the
-- failure of the probe.
pub data Fails : ProbeResult → Exn → Type 0 where
  not_run : (e : Exn) → Fails (raised e) e
  undecodable : Fails (exited 255 false) value_error
  by_signal : (sig : ℕ) → Fails (signalled sig) (probe_failed sig)
  by_code :
      (code : ℕ) (u : Bool) → code ≢ 0 → code ≢ 255 → Fails (exited code u) (probe_failed code)

-- How the last try decides.
abbrev pub Decides : Guest → ℕ → ℕ → Result ℕ → Type 0
Decides guest timeout t (ok at) =
    (duration : ℕ) × (u : Bool) × (t < timeout)
    × (guest t ≡ (duration, exited 0 u))
    × (at ≡ t + duration)
Decides guest timeout t (err e) =
    ((timeout ≤ t) × (e ≡ no_connection))
    ⊎ ((duration : ℕ) × (result : ProbeResult) × (t < timeout)
        × (guest t ≡ (duration, result))
        × Fails result e)

-- A probe that does not end the loop failed to connect, and one that does decides.
failing :
    (t d : ℕ) (p : ℕ × ProbeResult)
    → ◌≡◌ {A = ℕ × Option (Result ℕ)} (p.0, after_probe (t + p.0) p.1) (d, none)
    → p ≡ (d, exited 255 true)
failing t d (k, raised x) h = cc
failing t d (k, signalled sig) h = cc
failing t d (k, exited code u) h = elim (Bool-cases (code == 255)) [
  | inl e ↦ decoded u (rw e at h) ((==_iff code 255).0 e)
  | inr e ↦ elim (Bool-cases (code == 0)) [
    | inl z ↦ cc (rw (e, z) at h)
    | inr z ↦ cc (rw (e, z) at h)
  ]
]
  where
    decoded :
        (u : Bool)
        → ◌≡◌ {A = ℕ × Option (Result ℕ)} (k, if u then none else some (err value_error)) (d, none)
        → code ≡ 255
        → ◌≡◌ {A = ℕ × ProbeResult} (k, exited code u) (d, exited 255 true)
    decoded false h e = cc
    decoded true h e = rw e (cc h)

deciding :
    (guest : Guest) (timeout t d : ℕ) (p : ℕ × ProbeResult) (r : Result ℕ)
    → guest t ≡ p
    → t < timeout
    → ◌≡◌ {A = ℕ × Option (Result ℕ)} (p.0, after_probe (t + p.0) p.1) (d, some r)
    → Decides guest timeout t r
deciding guest timeout t d (k, raised x) r same early h =
    let is_r : r ≡ err x = cc h in rw is_r (inr (k, raised x, early, same, not_run x))
deciding guest timeout t d (k, signalled sig) r same early h =
    let is_r : r ≡ err (probe_failed sig) = cc h in
    rw is_r (inr (k, signalled sig, early, same, by_signal sig))
deciding guest timeout t d (k, exited code u) r same early h = elim (Bool-cases (code == 255)) [
  | inl e ↦ decoded u (rw e at h) (rw (← (==_iff code 255).0 e) same)
  | inr e ↦ elim (Bool-cases (code == 0)) [
    | inl z ↦ connected (rw (← (==_iff code 0).0 z) same) (cc (rw (e, z) at h))
    | inr z ↦
        failed (λ q. cc ((==_iff code 0).1 q, z)) (λ q. cc ((==_iff code 255).1 q, e))
          (cc (rw (e, z) at h))
  ]
]
  where
    decoded :
        (b : Bool)
        → ◌≡◌ {A = ℕ × Option (Result ℕ)}
            (k, if b then none else some (err value_error))
            (d, some r)
        → guest t ≡ (k, exited 255 b)
        → Decides guest timeout t r
    decoded true h same = cc
    decoded false h same =
        let is_r : r ≡ err value_error = cc h in
        rw is_r (inr (k, exited 255 false, early, same, undecodable))

    connected : guest t ≡ (k, exited 0 u) → r ≡ ok (t + k) → Decides guest timeout t r
    connected same q = rw q (k, u, early, same, refl)

    failed : code ≢ 0 → code ≢ 255 → r ≡ err (probe_failed code) → Decides guest timeout t r
    failed nonzero no_retry q =
        rw q (inr (k, exited code u, early, same, by_code code u nonzero no_retry))

module _ (guest : Guest) (timeout : ℕ) where
  tries :
      {t : ℕ}
      → Retry.Attempts time_between_tries timeout (err no_connection) (probe guest) t
      → Tries guest timeout t
  tries Retry.first = first
  tries (Retry.later {t} d earlier early h) =
      again d (tries earlier) early (failing t d (guest t) h)

  decides :
      (t : ℕ) (r : Result ℕ)
      → Retry.Ends time_between_tries timeout (err no_connection) (probe guest) t r
      → Decides guest timeout t r
  decides t r (inr (d, early, h)) = deciding guest timeout t d (guest t) r refl early h
  decides t r (inl (late, h)) = rw h (inl (late, refl))

-- Waiting for a guest ends: with one unit of fuel more than the timeout in seconds there is always a
-- result, however the probes end, since `subprocess.run` has a timeout and the tries are at least two seconds
-- apart. The result is decided by a last try, before which every try was in time and exited with 255: it is a
-- connection only if that try was in time and exited with 0; and what is raised is what running the probe raised,
-- a decoding error if the text of a 255 is not UTF-8, the failure of a probe that exited with another code or was
-- ended by a signal, or, without a try, that the time was up. How the second SSH is started is left out.
pub timed_connection-Decides :
    (guest : Guest) (timeout : ℕ)
    → (result : Result ℕ) × (t : ℕ) × (timed_connection (suc timeout) guest timeout 0 ≡ some result)
      × Tries guest timeout t
      × Decides guest timeout t result
unfolding timed_connection
timed_connection-Decides guest timeout =
    let (r, t, made, earlier, end) =
      retry-Ends time_between_tries timeout (err no_connection) (probe guest) (omega arith) in
    (r, t, made, tries guest timeout earlier, decides guest timeout t r end)
