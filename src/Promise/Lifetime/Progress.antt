-- ===== src/Promise/Lifetime/Progress.antt =====
-- The destructor is never stuck after the time limit.
use oregano.Base.{
  ℕ, ◌≤◌, String, ◌≡◌, ◌≢◌, refl, true, false, none, some, arith, Bool-cases, Option-cases, inl,
  inr, dec_le,
}
use oregano.Promise.{
  ResponsePromise, Waiter, absent, called, unread, locking, acquired, reading, missed, returned,
  raised, Responder, waiting, storing, unlocking, finished, ignored, Await, is_read, is_unread,
  is_applied, not_applied, lock, give_up, mark_answer, copy, mark_timeout, Respond, too_late,
  in_time, store, unlock,
}
use oregano.Promise.Lifetime.{
  Owner, alive, joining, unregistering, destroyed, terminated, Life, is_idle, Move, wait, call_back,
  throw, respond, release, skip_join, join, unregister, Reach,
}
use oregano.Promise.Lifetime.Invariant.{is_leaving, Inv, Reach-Inv}
use oregano.Promise.Lifetime.Ending.{cost}

-- Some move of a thread can be made.
abbrev pub CanMove : String → Life → Type 0
CanMove text l = (m : Life) × (x : Move text l m) × (cost x ≡ 1)

awaits_once :
    {text : String} (l : Life) (i : ℕ) {p : ResponsePromise} {v w : Waiter}
    → l.system.waiters i ≡ v
    → Await l.system.promise l.system.now v p w
    → CanMove text l
awaits_once l i {p} {w = w} e a = (_, wait i {p = p} {w = w} (rw e a), refl)

awaits :
    {text : String} (l : Life) (i : ℕ) (w : Waiter)
    → l.system.waiters i ≡ w
    → l.system.promise.valid_until ≤ l.system.now
    → is_idle w ≡ false
    → CanMove text l
awaits l i called e late n = elim (Bool-cases l.system.promise.result_read) [
  | inl h ↦ awaits_once l i e (is_read h)
  | inr h ↦ awaits_once l i e (is_unread h)
]
awaits l i unread e late n = elim (Bool-cases l.system.promise.then_applied) [
  | inl h ↦ awaits_once l i e (is_applied h)
  | inr h ↦ awaits_once l i e (not_applied h)
]
awaits l i locking e late n = elim (Bool-cases l.system.promise.locked) [
  | inl h ↦ awaits_once l i e (give_up h late)
  | inr h ↦ awaits_once l i e (lock h)
]
awaits l i acquired e late n = awaits_once l i e mark_answer
awaits l i reading e late n = awaits_once l i e copy
awaits l i missed e late n = awaits_once l i e mark_timeout
awaits l i absent e late n = cc
awaits l i (returned r) e late n = cc
awaits l i (raised x) e late n = cc

calls_back :
    {text : String} (l : Life) (i : ℕ) (w : Waiter)
    → l.system.waiters i ≡ w
    → w ≢ absent
    → l.then_thread ≡ some i
    → l.called_back ≡ none
    → l.system.promise.valid_until ≤ l.system.now
    → CanMove text l
calls_back l i absent e n t c late = absurd (n refl)
calls_back l i (returned r) e n t c late = (_, call_back t c e, refl)
calls_back l i (raised x) e n t c late = (_, throw t e, refl)
calls_back l i w e n t c late = awaits l i w e late refl

responds_once :
    {text : String} (l : Life) {p : ResponsePromise} {r s : Responder}
    → l.system.responder ≡ r
    → l.registry_locked ≡ true
    → Respond text l.system.promise l.system.now r p s
    → CanMove text l
responds_once l {p} {s = s} e h a = (_, respond {p = p} {r = s} h (rw e a), refl)

responds :
    {text : String} (l : Life) (s : Responder)
    → l.system.responder ≡ s
    → l.registry_locked ≡ true
    → CanMove text l
responds l waiting e h = elim (dec_le l.system.now l.system.promise.valid_until) [
  | yes p ↦ responds_once l e h (in_time p)
  | no p ↦ responds_once l e h (too_late (omega (arith, p)))
]
responds l storing e h = responds_once l e h store
responds l unlocking e h = responds_once l e h unlock
responds l finished e h = (_, release h (rw e refl), refl)
responds l ignored e h = (_, release h (rw e refl), refl)

-- Past the time limit, the destructor is never stuck: until it is over, the owner, the thread of
-- `then` or the response thread can make a move.
pub destructor_moves :
    {text : String} {valid_until now : ℕ} {l : Life}
    → Reach text valid_until now l
    → is_leaving l.owner ≡ true
    → l.owner ≢ destroyed
    → l.system.promise.valid_until ≤ l.system.now
    → CanMove text l
destructor_moves {text} {l = l} r o n late = from l.owner refl o n
  where
    v : Inv l
    v = Reach-Inv r

    from : (w : Owner) → l.owner ≡ w → is_leaving w ≡ true → w ≢ destroyed → CanMove text l
    from joining e p q = elim (Option-cases l.then_thread) [
      | inl t ↦ (_, skip_join e (ground (arith, v.orderly)), refl)
      | inr (i, t) ↦ elim (Option-cases l.called_back) [
        | inl c ↦ calls_back l i (l.system.waiters i) refl (v.begun i t) t c late
        | inr (x, c) ↦ (_, join e (ground (arith, v.orderly)) c, refl)
      ]
    ]
    from unregistering e p q = elim (Bool-cases l.registry_locked) [
      | inl h ↦ responds l l.system.responder refl h
      | inr h ↦ (_, unregister e h, refl)
    ]
    from destroyed e p q = absurd (q refl)
    from alive e p q = cc
    from terminated e p q = cc
