-- ===== src/Promise/Lifetime/Ending.antt =====
-- The destructor ends: few moves are left before it.
use oregano.Base.{
  ℕ, zero, suc, ◌+◌, ◌≤◌, ◌<◌, String, ◌≡◌, Bool, true, false, Option, none, some, arith,
  Option-cases, inl, inr,
}
use oregano.Promise
use oregano.Promise.{
  Response, ResponsePromise, Waiter, absent, called, unread, locking, acquired, reading, missed,
  returned, raised, Responder, waiting, storing, unlocking, finished, ignored, System, Await,
  is_read, is_unread, is_applied, not_applied, lock, give_up, mark_answer, copy, mark_timeout,
  Respond, too_late, in_time, store, unlock,
}
use oregano.Promise.Lifetime.{
  Owner, joining, unregistering, Life, Move, tick, await, apply, wait, call_back, throw, look_up,
  respond, release, destroy, skip_join, join, unregister, Reach, later,
}
use oregano.Promise.Lifetime.Invariant.{is_leaving, Inv, Await-kept, Reach-Inv}

-- What is left of a call of `await`.
abbrev pub await_left : Waiter → ℕ
await_left called = 5
await_left unread = 4
await_left locking = 3
await_left acquired = 2
await_left reading = 1
await_left missed = 1
await_left _ = 0

-- What is left before the callback of `then` has been called.
abbrev pub then_left : Option ℕ → Option Response → (ℕ → Waiter) → ℕ
then_left none c f = 0
then_left (some i) none f = suc (await_left (f i))
then_left (some i) (some r) f = 0

-- What is left for the response thread, with the lock or without it.
abbrev pub response_left : Responder → Bool → ℕ
response_left waiting false = 5
response_left waiting true = 4
response_left storing b = 3
response_left unlocking b = 2
response_left _ true = 1
response_left _ false = 0

abbrev pub owner_left : Owner → ℕ
owner_left joining = 2
owner_left unregistering = 1
owner_left _ = 0

abbrev pub moves_left : Life → ℕ
moves_left l =
    owner_left l.owner
    + then_left l.then_thread l.called_back l.system.waiters
    + response_left l.system.responder l.registry_locked

-- A move of a thread, as against one of the clock.
abbrev pub cost : {text : String} {l m : Life} → Move text l m → ℕ
cost (tick d) = 0
cost _ = 1

Await-left :
    {p q : ResponsePromise} {now : ℕ} {w v : Waiter}
    → Await p now w q v
    → await_left v < await_left w
Await-left (is_read h) = omega arith
Await-left (is_unread h) = omega arith
Await-left (is_applied h) = omega arith
Await-left (not_applied h) = omega arith
Await-left (lock h) = omega arith
Await-left (give_up h k) = omega arith
Await-left mark_answer = omega arith
Await-left copy = omega arith
Await-left mark_timeout = omega arith

Respond-left :
    {text : String} {p q : ResponsePromise} {now : ℕ} {r s : Responder}
    → Respond text p now r q s
    → response_left s true < response_left r true
Respond-left (too_late h) = omega arith
Respond-left (in_time h) = omega arith
Respond-left store = omega arith
Respond-left unlock = omega arith

wait-left :
    (l : Life) (i : ℕ) {p : ResponsePromise} {w : Waiter}
    → Inv l
    → is_leaving l.owner ≡ true
    → (a : Await l.system.promise l.system.now (l.system.waiters i) p w)
    → then_left l.then_thread l.called_back (Promise.update l.system.waiters i w)
      < then_left l.then_thread l.called_back l.system.waiters
wait-left l i {p} {w} v o a = elim (Option-cases l.called_back) [
  | inl c ↦ ground (arith, v.left i o, Await-left a, Await-kept a)
  | inr (x, c) ↦ ground (arith, v.left i o, v.answered i x, Await-kept a)
]

-- In the destructor every move of a thread leaves fewer of them.
Move-left :
    {text : String} {l m : Life}
    → Inv l
    → is_leaving l.owner ≡ true
    → (x : Move text l m) → is_leaving m.owner ≡ true
    → cost x + moves_left m ≤ moves_left l
Move-left v o (tick d) e = omega arith
Move-left v o (await i p f) e = cc
Move-left v o (apply i p f h) e = cc
Move-left {l = l} v o (wait i a) e = omega (arith, wait-left l i v o a)
Move-left v o (call_back t c f) e = ground arith
Move-left v o (throw t f) e = cc
Move-left v o (look_up f g h) e = ground arith
Move-left v o (respond f a) e = ground (arith, Respond-left a)
Move-left v o (release f g) e = ground arith
Move-left v o (destroy p f) e = cc
Move-left v o (skip_join p f) e = ground arith
Move-left v o (join p h f) e = ground arith
Move-left v o (unregister p f) e = ground arith

-- Runs while the promise is being destroyed, by the number of the threads' moves in them.
pub data Run (text : String) (l : Life) : ℕ → Life → Type 0 where
  stay : Run text l zero l
  clock :
      {n : ℕ} {m k : Life}
      → Run text l n m
      → (x : Move text m k) → cost x ≡ 0
      → is_leaving k.owner ≡ true
      → Run text l n k
  moved :
      {n : ℕ} {m k : Life}
      → Run text l n m
      → (x : Move text m k) → cost x ≡ 1
      → is_leaving k.owner ≡ true
      → Run text l (suc n) k

Run-left :
    {text : String} {valid_until now : ℕ} {l m : Life} {n : ℕ}
    → Reach text valid_until now l
    → is_leaving l.owner ≡ true
    → Run text l n m
    → Reach text valid_until now m × (is_leaving m.owner ≡ true) × (n + moves_left m ≤ moves_left l)
Run-left r o stay = (r, o, omega arith)
Run-left r o (clock y x e f) =
    let (s, p, q) = Run-left r o y in (later s x, f, omega (arith, Move-left (Reach-Inv s) p x f))
Run-left r o (moved y x e f) =
    let (s, p, q) = Run-left r o y in (later s x, f, omega (arith, Move-left (Reach-Inv s) p x f))

await_left-le : (w : Waiter) → await_left w ≤ 5
await_left-le w = ground arith

then_left-le : (t : Option ℕ) (c : Option Response) (f : ℕ → Waiter) → then_left t c f ≤ 6
then_left-le none c f = omega arith
then_left-le (some i) none f = omega (arith, await_left-le (f i))
then_left-le (some i) (some x) f = omega arith

moves_left-le : (o : Owner) (r : Responder) (b : Bool) → owner_left o + response_left r b ≤ 7
moves_left-le o r b = ground arith

-- From the beginning of the destructor on, the threads make thirteen moves at most that concern the
-- promise, those of the destructor, of the thread of `then` and of the response thread together.
pub destructor_ends :
    {text : String} {valid_until now n : ℕ} {l m : Life}
    → Reach text valid_until now l
    → is_leaving l.owner ≡ true
    → Run text l n m
    → n ≤ 13
destructor_ends {l = l} r o y = omega (
  arith,
  (Run-left r o y).2,
  then_left-le l.then_thread l.called_back l.system.waiters,
  moves_left-le l.owner l.system.responder l.registry_locked,
)
