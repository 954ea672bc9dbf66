-- ===== src/Promise/Lifetime/Safety.antt =====
-- A promise is not used after its destruction, and the callback of `then` is called before.
use oregano.Base.{
  ℕ, ◌≤◌, String, ◌≡◌, ◌⊎◌, refl, true, false, none, some, arith, Bool-cases, Option-cases, inl,
  inr,
}
use oregano.Promise
use oregano.Promise.{answer, timeout, Response, enter, enter_then, Step}
use oregano.Promise.Outcomes.{await_outcome}
use oregano.Promise.Lifetime.{
  destroyed, Life, is_idle, Move, tick, await, apply, wait, call_back, throw, look_up, respond,
  release, destroy, skip_join, join, unregister, Reach, start, later,
}
use oregano.Promise.Lifetime.Invariant.{is_responding, Inv, Await-kept, Reach-Inv}

-- The threads of a promise take the steps of the parent.
Move-Reach :
    {text : String} {valid_until now : ℕ} {l m : Life}
    → Promise.Reach text valid_until now l.system
    → Move text l m
    → Promise.Reach text valid_until now m.system
Move-Reach r (tick d) = Promise.Reach.later r (Step.tick d)
Move-Reach r (await i o e) = Promise.Reach.later r (enter i e)
Move-Reach r (apply i o e h) = Promise.Reach.later r (enter_then i e h)
Move-Reach r (wait i a) = Promise.Reach.later r (Step.wait i a)
Move-Reach r (call_back t c e) = r
Move-Reach r (throw t e) = r
Move-Reach r (look_up f g e) = r
Move-Reach r (respond f a) = Promise.Reach.later r (Step.respond a)
Move-Reach r (release f e) = r
Move-Reach r (destroy o e) = r
Move-Reach r (skip_join o e) = r
Move-Reach r (join o h e) = r
Move-Reach r (unregister o e) = r

pub system-Reach :
    {text : String} {valid_until now : ℕ} {l : Life}
    → Reach text valid_until now l
    → Promise.Reach text valid_until now l.system
system-Reach start = Promise.Reach.start
system-Reach (later r x) = Move-Reach (system-Reach r) x

destroyed-idle :
    (l : Life) → Inv l → l.owner ≡ destroyed → (j : ℕ) → is_idle (l.system.waiters j) ≡ true
destroyed-idle l v o j = elim (Bool-cases (is_idle (l.system.waiters j))) [
  | inl e ↦ e
  | inr e ↦ elim (Option-cases l.called_back) [
    | inl c ↦ ground (arith, v.left j, v.orderly)
    | inr (r, c) ↦ ground (arith, v.left j, v.answered j r)
  ]
]

module _ {text : String} {valid_until now : ℕ} {l : Life} (r : Reach text valid_until now l) where
  -- Once a promise is destroyed, no thread is in `await` or in `on_response`, and whatever moves
  -- come after, of the clock or of any thread, they leave the promise alone.
  pub destroyed_unused :
      l.owner ≡ destroyed
      → ((j : ℕ) → is_idle (l.system.waiters j) ≡ true)
        × (is_responding l.system.responder ≡ false)
        × ((m : Life)
            → Move text l m
            → (m.owner ≡ destroyed) × (m.system ≡ record (l.system) { now = m.system.now }))
  destroyed_unused o = (destroyed-idle l v o, ground (arith, v.orderly), after)
    where
      v : Inv l
      v = Reach-Inv r

      after :
          (m : Life)
          → Move text l m
          → (m.owner ≡ destroyed) × (m.system ≡ record (l.system) { now = m.system.now })
      after m (tick d) = (o, refl)
      after m (await i p e) = cc
      after m (apply i p e h) = cc
      after m (wait i a) = ground (arith, destroyed-idle l v o i, Await-kept a)
      after m (call_back t c e) = (o, refl)
      after m (throw {i} t e) = elim (Option-cases l.called_back) [
        | inl c ↦ ground (arith, v.orderly)
        | inr (x, c) ↦ ground (arith, v.answered i x)
      ]
      after m (look_up f g e) = (o, refl)
      after m (respond f a) = ground (arith, v.orderly)
      after m (release f e) = (o, refl)
      after m (destroy p e) = cc
      after m (skip_join p e) = cc
      after m (join p h e) = cc
      after m (unregister p e) = cc

  -- When a promise to which `then` was applied is destroyed, the callback has been called, with the
  -- text of the response or with a timeout, and with the latter no earlier than the time limit.
  pub destroyed_called_back :
      {i : ℕ}
      → l.owner ≡ destroyed
      → l.then_thread ≡ some i
      → (x : Response) × (l.called_back ≡ some x)
        × ((x ≡ record { resolution = answer; message = some text })
            ⊎ (x ≡ record { resolution = timeout; message = none })
              × (l.system.promise.valid_until ≤ l.system.now))
  destroyed_called_back {i} o t = elim (Option-cases l.called_back) [
    | inl c ↦ ground (arith, (Reach-Inv r).orderly)
    | inr (x, c) ↦ (x, c, await_outcome (system-Reach r) i x ((Reach-Inv r).answered i x t c))
  ]
