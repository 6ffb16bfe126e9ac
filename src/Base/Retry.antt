-- ===== src/Base/Retry.antt =====
-- A loop that attempts something until it has a result or the time is up, with a pause between the attempts.
use Prim.Native.Nat.{ℕ, zero, suc, ◌+◌, ◌-◌, ◌≤◌, ◌<◌}
use mathlib.Core.Path.{◌≡◌, refl}
use mathlib.Core.Logic.{◌⊎◌, inl, inr}
use mathlib.Core.Bool.{Bool, true}
use mathlib.Core.Option.{Option, none, some}
use native.Mathlib.Omega.{arith}
use transient.Base.Tests.{ltb, if◌then◌else◌, ltb→lt, Bool-cases}

-- `while time.time() - start < timeout`, where `attempt` gives, for the time at which it is
-- started, how long it takes and what the loop ends with, if it does; `late` is what follows the
-- loop.
module _ {ℓ} {R : Type ℓ} (pause : ℕ) (in_time : ℕ → Bool) (late : R)
    (attempt : ℕ → ℕ × Option R) where
  abbrev end_turn : Option R → Option R → Option R
  end_turn again none = again
  end_turn again (some r) = some r

  -- With the time that has passed; none if the fuel runs out.
  unfoldable pub retry : ℕ → ℕ → Option R
  retry zero elapsed = none
  retry (suc fuel) elapsed =
      let (duration, result) = attempt elapsed in
      let again = retry fuel ((elapsed + duration) + pause) in
      if in_time elapsed then end_turn again result else some late

  -- An attempt in time that decides is the last.
  pub retry-first :
      (fuel : ℕ) {elapsed duration : ℕ} {r : R}
      → in_time elapsed ≡ true
      → attempt elapsed ≡ (duration, some r)
      → retry (suc fuel) elapsed ≡ some r
  unfolding retry
  retry-first fuel early decided = rw (early, decided) refl

abbrev pub before : ℕ → ℕ → Bool
before timeout elapsed = ltb elapsed timeout

module _ {ℓ} {R : Type ℓ} (pause timeout : ℕ) (late : R) (attempt : ℕ → ℕ × Option R) where
  -- The times at which attempts are started: each in time, and after one that did not end the loop.
  pub data Attempts : ℕ → Type ℓ where
    first : Attempts 0
    later :
        {t : ℕ} (duration : ℕ)
        → Attempts t
        → t < timeout
        → attempt t ≡ (duration, none)
        → Attempts ((t + duration) + pause)

  -- How the loop ends at a time: late, or by an attempt in time.
  abbrev pub Ends : ℕ → R → Type ℓ
  Ends t r =
      ((timeout ≤ t) × (r ≡ late))
      ⊎ ((duration : ℕ) × (t < timeout) × (attempt t ≡ (duration, some r)))

  abbrev pub Ended : Option R → Type ℓ
  Ended o = (r : R) × (t : ℕ) × (o ≡ some r) × Attempts t × Ends t r

  retry-Ended :
      (fuel elapsed : ℕ)
      → 0 < pause
      → Attempts elapsed
      → timeout - elapsed < fuel
      → Ended (retry pause (before timeout) late attempt fuel elapsed)
  unfolding retry
  retry-Ended zero elapsed waits attempts enough = absurd (omega arith)
  retry-Ended (suc fuel) elapsed waits attempts enough = elim (Bool-cases (ltb elapsed timeout)) [
    | inr up ↦ rw up (late, elapsed, refl, attempts, inl (ground (arith, up), refl))
    | inl early ↦ rw early (
        turn (ltb→lt elapsed timeout early) (attempt elapsed) refl (λ d e.
          retry-Ended fuel ((elapsed + d) + pause) waits
            (later d attempts (ltb→lt elapsed timeout early) e)
            (omega (arith, ltb→lt elapsed timeout early))))
  ]
    where
      turn :
          elapsed < timeout
          → (p : ℕ × Option R) → attempt elapsed ≡ p
          → ((d : ℕ)
              → attempt elapsed ≡ (d, none)
              → Ended (retry pause (before timeout) late attempt fuel ((elapsed + d) + pause)))
          → Ended (
              end_turn pause
                (before timeout)
                late
                attempt
                (retry pause (before timeout) late attempt fuel ((elapsed + p.0) + pause))
                p.1)
      turn early (d, none) e again = again d e
      turn early (d, some r) e again = (r, elapsed, refl, attempts, inr (d, early, e))

  -- With one unit of fuel more than the timeout the loop has a result.
  pub retry-Ends : 0 < pause → Ended (retry pause (before timeout) late attempt (suc timeout) 0)
  retry-Ends waits = retry-Ended (suc timeout) 0 waits first (omega arith)
