-- ===== src/Store/Lock.antt =====
-- `InstallationLock::acquire` of services/storage.rs: a poll of `flock` until it is granted, fails,
-- or the timeout has passed.
use lam.Prelude.{
  ℕ, zero, suc, ◌≤◌, ◌<◌, ◌≡◌, refl, Option, none, some, arith, ltb, if◌then◌else◌, Bool-cases, inl,
  inr, true, ◌+◌, ltb→lt,
}
use lam.Errors.{Result, ok, err, error, AppError, store_lock_timeout, store_io}
use lam.Store.{InstallationLockGuard}
use lam.Prelude.{String, ◌∷◌, []}

-- `try_flock`: `Ok(true)`, `Ok(false)`, `Err(_)`
pub data Flock : Type 0 where
  granted busy failed : Flock

-- The environment of the loop: what each poll finds, and the milliseconds since `started` after it.
pub record Polls : Type 0 where
  pub outcome : ℕ → Flock
  pub elapsed : ℕ → ℕ

abbrev pub lock_timeout : ℕ → AppError
lock_timeout timeout = record {
  code = store_lock_timeout;
  recoverable = true;
  details = Option.some (("timeoutMs", timeout) ∷ []);
}

-- The loop from the poll with number `i` on; `none` means that the fuel ran out.
unfoldable pub acquire_from : String → ℕ → Polls → ℕ → ℕ → Option (Result InstallationLockGuard)
acquire_from path timeout polls zero i = none
acquire_from path timeout polls (suc fuel) i =
    let again = acquire_from path timeout polls fuel (suc i) in
    elim (polls.outcome i) [
      | granted ↦ some (ok (record { path = path }))
      | busy ↦ if ltb (polls.elapsed i) timeout then again else some (err (lock_timeout timeout))
      | failed ↦ some (err (error store_io))
    ]

-- Each poll sleeps `LOCK_POLL_INTERVAL`, so time passes: after n polls at least n milliseconds.
abbrev pub IsTicking : Polls → Type 0
IsTicking polls = (i : ℕ) → i ≤ polls.elapsed i

-- Why the loop ended: at a poll that was granted, that failed, or that was busy after the timeout.
pub data Ended (path : String) (timeout : ℕ) (polls : Polls)
    : Result InstallationLockGuard → Type 0 where
  was_granted :
      (i : ℕ) → polls.outcome i ≡ granted → Ended path timeout polls (ok (record { path = path }))
  timed_out :
      (i : ℕ)
      → polls.outcome i ≡ busy
      → timeout ≤ polls.elapsed i
      → Ended path timeout polls (err (lock_timeout timeout))
  broke : (i : ℕ) → polls.outcome i ≡ failed → Ended path timeout polls (err (error store_io))

module _ (path : String) (timeout : ℕ) (polls : Polls) (tick : IsTicking polls) where
  Answer : ℕ → ℕ → Type 0
  Answer fuel i =
      (r : Result InstallationLockGuard) × (acquire_from path timeout polls fuel i ≡ some r)
      × Ended path timeout polls r

  -- one round of the loop, given what the later rounds return if this one goes on
  acquire_step :
      (fuel i : ℕ) (o : Flock)
      → polls.outcome i ≡ o
      → (ltb (polls.elapsed i) timeout ≡ true → Answer fuel (suc i))
      → Answer (suc fuel) i
  unfolding acquire_from Answer
  acquire_step fuel i granted e later =
      (ok (record { path = path }), rw (e, acquire_from), was_granted i e)
  acquire_step fuel i failed e later = (err (error store_io), rw (e, acquire_from), broke i e)
  acquire_step fuel i busy e later = elim (Bool-cases (ltb (polls.elapsed i) timeout)) [
    | inl more ↦ let (r, p, ended) = later more in (r, rw (e, more, acquire_from) p, ended)
    | inr late ↦
        (err (lock_timeout timeout), rw (e, late, acquire_from), timed_out i e (ground arith))
  ]

  acquire_within : (fuel i : ℕ) → i ≤ timeout → timeout < i + fuel → Answer fuel i
  acquire_within zero i le h = absurd (omega arith)
  acquire_within (suc fuel) i le h =
      acquire_step fuel i (polls.outcome i) refl
        (λ more. acquire_within fuel (suc i) (omega (arith, tick i, ltb→lt _ _ more)) (omega arith))

  -- Where each poll takes a millisecond or more, the loop ends, in at most as many rounds as the
  -- timeout has milliseconds and one more: with the lock if a poll was granted, with the timeout's
  -- error only at a poll that was busy when the timeout had passed, with an i/o error if a poll failed.
  pub acquire_from-Ended :
      (r : Result InstallationLockGuard) × (acquire_from path timeout polls (suc timeout) 0
        ≡ some r)
      × Ended path timeout polls r
  unfolding Answer
  acquire_from-Ended = acquire_within (suc timeout) 0 (omega arith) (omega arith)
