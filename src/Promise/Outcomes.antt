-- ===== src/Promise/Outcomes.antt =====
-- What the users of a promise can rely on, and what they cannot.
use oregano.Base.{
  ℕ, ◌≤◌, String, ◌≡◌, ◌≢◌, ◌⊎◌, refl, true, false, none, some, arith, Bool-cases, inl, inr,
}
use oregano.Promise.{
  answer, timeout, Response, read_twice, applied_twice, ResponsePromise, then_outcome, terminated,
  Waiter, called, locking, acquired, missed, returned, raised, update, System, Await, is_read,
  is_unread, lock, give_up, Step, wait, Reach,
}
use oregano.Promise.Invariant.{Reach-Inv}

module _ {text : String} {valid_until now : ℕ} {s : System} (r : Reach text valid_until now s) where
  -- Whatever the threads do: a result of `await` is the text of the response, whole, or a timeout
  -- without a message, which comes no earlier than the time limit.
  pub await_outcome :
      (i : ℕ) (x : Response)
      → s.waiters i ≡ returned x
      → (x ≡ record { resolution = answer; message = some text })
        ⊎ (x ≡ record { resolution = timeout; message = none }) × (s.promise.valid_until ≤ s.now)
  await_outcome i x e = ground (arith, (Reach-Inv r).places i)

  -- One response answers one `await` at most.
  pub one_answer :
      (i j : ℕ) (x y : Response)
      → s.waiters i ≡ returned x
      → s.waiters j ≡ returned y
      → x.resolution ≡ answer
      → y.resolution ≡ answer
      → i ≡ j
  one_answer i j x y e f p q = ground (arith, (Reach-Inv r).unique i j)

  -- Once a result has been returned, a thread that calls `await` gets the exception for it.
  pub read_once :
      (i j : ℕ) (x : Response) {p : ResponsePromise} {w : Waiter}
      → s.waiters i ≡ returned x
      → s.waiters j ≡ called
      → Await s.promise s.now (s.waiters j) p w
      → w ≡ raised read_twice
  read_once i j x e f a = again f a ground (arith, (Reach-Inv r).places i)
    where
      again :
          {v : Waiter} {p : ResponsePromise} {w : Waiter}
          → v ≡ called
          → Await s.promise s.now v p w
          → s.promise.result_read ≡ true
          → w ≡ raised read_twice
      again g (is_read h) t = refl
      again g (is_unread h) t = cc
      again g b t = cc

  -- No thread waits for ever: past the time limit, a thread in `try_lock_until` can go on.
  pub await_ends :
      (i : ℕ)
      → s.waiters i ≡ locking
      → s.promise.valid_until ≤ s.now
      → (t : System) × Step text s t × (t.waiters i ≢ locking)
  await_ends i e late = elim (Bool-cases s.promise.locked) [
    | inl h ↦ (
      record s { waiters = update s.waiters i missed },
      wait i rw e (give_up h late),
      ground arith,
    )
    | inr h ↦ (
      record s {
        promise = record (s.promise) { locked = true };
        waiters = update s.waiters i acquired;
      },
      wait i rw e (lock h),
      ground arith,
    )
  ]

  -- The exception for a second `then` is never thrown.
  pub never_applied_twice : (i : ℕ) → s.waiters i ≢ raised applied_twice
  never_applied_twice i e = ground (arith, (Reach-Inv r).places i)

  -- A second `then`, while the first one waits for its result, ends the program.
  pub then_twice :
      s.promise.then_joinable ≡ true
      → s.promise.result_read ≡ false
      → then_outcome s.promise ≡ terminated
  unfolding then_outcome
  then_twice h n = ground (arith, (Reach-Inv r).never_applied)
