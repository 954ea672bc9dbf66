-- ===== src/Promise/Invariant.antt =====
-- What holds in every state of a promise to which one response comes.
use oregano.Base.{
  ℕ, ◌+◌, ◌≤◌, String, ◌≡◌, ◌≢◌, refl, Bool, true, false, none, some, arith, ◌⊎◌, inl, inr,
}
use oregano.Promise.{
  Resolution, answer, timeout, applied_twice, ResponsePromise, create, Waiter, absent, called,
  acquired, reading, missed, returned, raised, Responder, unlocking, finished, update, System,
  Await, is_read, is_applied, lock, give_up, Respond, too_late, Step, with_thread, tick, enter,
  enter_then, wait, respond, init, Reach, start, later,
}

abbrev pub is_answer : Resolution → Bool
is_answer answer = true
is_answer timeout = false

-- The thread has taken the lock that the response released.
abbrev pub holds : Waiter → Bool
holds acquired = true
holds reading = true
holds (returned r) = is_answer r.resolution
holds _ = false

-- The response has been handed over.
abbrev pub is_finished : Responder → Bool
is_finished finished = true
is_finished _ = false

abbrev pub has_stored : Responder → Bool
has_stored unlocking = true
has_stored finished = true
has_stored _ = false

-- What a waiter's place says about the promise, the clock and the one response.
abbrev pub IsAt : String → ResponsePromise → ℕ → Waiter → Type 0
IsAt text p now missed = p.valid_until ≤ now
IsAt text p now reading = p.result_read ≡ true
IsAt text p now (returned r) =
    (p.result_read ≡ true)
    × (r.resolution ≡ answer → r.message ≡ some text)
    × (r.resolution ≡ timeout → (r.message ≡ none) × (p.valid_until ≤ now))
IsAt text p now (raised e) = (e ≢ applied_twice) × (p.result_read ≡ true)
IsAt text p now _ = Unit

pub record Inv (text : String) (s : System) : Type 0 where
  pub never_applied : s.promise.then_applied ≡ false
  pub stored : has_stored s.responder ≡ true → s.promise.response ≡ text
  pub closed : is_finished s.responder ≡ false → s.promise.locked ≡ true
  pub unheld :
      (i : ℕ)
      → holds (s.waiters i) ≡ true
      → (s.promise.locked ≡ true) × (is_finished s.responder ≡ true)
  pub unique : (i j : ℕ) → holds (s.waiters i) ≡ true → holds (s.waiters j) ≡ true → i ≡ j
  pub places : (i : ℕ) → IsAt text s.promise s.now (s.waiters i)

-- The test that lets a thread take its step, for the clauses below that treat all steps alike.
abbrev Test : {p p' : ResponsePromise} {now : ℕ} {w w' : Waiter} → Await p now w p' w' → Type 0
Test {p} (is_read _) = p.result_read ≡ true
Test {p} (is_applied _) = p.then_applied ≡ true
Test {p} (lock _) = p.locked ≡ false
Test {p} {now = now} (give_up _ _) = (p.locked ≡ true) × (p.valid_until ≤ now)
Test _ = Unit

test : {p p' : ResponsePromise} {now : ℕ} {w w' : Waiter} (a : Await p now w p' w') → Test a
test (is_read h) = h
test (is_applied h) = h
test (lock h) = h
test (give_up h k) = (h, k)
test _ = tt

module _ {text : String} (s : System) (v : Inv text s) (i : ℕ) where
  Await-flags :
      {p : ResponsePromise} {w w' : Waiter}
      → s.waiters i ≡ w
      → Await s.promise s.now w p w'
      → (p.then_applied ≡ false)
        × (has_stored s.responder ≡ true → p.response ≡ text)
        × (is_finished s.responder ≡ false → p.locked ≡ true)
  Await-flags e (lock h) = ground (arith, v.never_applied, v.stored, v.closed)
  Await-flags e a = (v.never_applied, v.stored, v.closed)

  Await-unheld :
      {p : ResponsePromise} {w w' : Waiter}
      → s.waiters i ≡ w
      → Await s.promise s.now w p w'
      → (j : ℕ) → holds (update s.waiters i w' j) ≡ true
      → (p.locked ≡ true) × (is_finished s.responder ≡ true)
  Await-unheld e (lock h) j q = ground (arith, v.unheld j, v.closed)
  Await-unheld e a j q = ground (arith, v.unheld j)

  Await-unique :
      {p : ResponsePromise} {w w' : Waiter}
      → s.waiters i ≡ w
      → Await s.promise s.now w p w'
      → (j k : ℕ) → holds (update s.waiters i w' j) ≡ true
      → holds (update s.waiters i w' k) ≡ true
      → j ≡ k
  Await-unique e (lock h) j k q r = ground (arith, v.unheld j, v.unheld k)
  Await-unique e a j k q r = ground (arith, v.unique j k, test a)

  Await-places :
      {p : ResponsePromise} {w w' : Waiter}
      → s.waiters i ≡ w
      → Await s.promise s.now w p w'
      → (j : ℕ) → IsAt text p s.now (update s.waiters i w' j)
  Await-places e (lock h) j = ground (arith, v.places j)
  Await-places e a j =
      ground (arith, test a, v.places j, v.places i, v.never_applied, v.unheld i, v.stored)

  Await-Inv :
      {p : ResponsePromise} {w w' : Waiter}
      → s.waiters i ≡ w
      → Await s.promise s.now w p w'
      → Inv text (record s { promise = p; waiters = update s.waiters i w' })
  Await-Inv e a =
      let f = Await-flags e a in
      record {
        never_applied = f.0;
        stored = f.1;
        closed = f.2;
        unheld = Await-unheld e a;
        unique = Await-unique e a;
        places = Await-places e a;
      }

  -- A thread that comes to call `await`.
  enter-Inv :
      {p : ResponsePromise}
      → s.waiters i ≡ absent
      → (p ≡ s.promise) ⊎ (p ≡ with_thread s.promise)
      → Inv text (record s { promise = p; waiters = update s.waiters i called })
  enter-Inv e p = record {
    never_applied = ground (arith, v.never_applied);
    stored = λ q. ground (arith, v.stored);
    closed = λ q. ground (arith, v.closed);
    unheld = λ j q. ground (arith, v.unheld j);
    unique = λ j k q r. ground (arith, v.unique j k);
    places = λ j. ground (arith, v.places j);
  }

module _ {text : String} (s : System) (v : Inv text s) where
  Respond-places :
      {p : ResponsePromise} {r r' : Responder}
      → s.responder ≡ r
      → Respond text s.promise s.now r p r'
      → (j : ℕ) → IsAt text p s.now (s.waiters j)
  Respond-places e (too_late h) j = v.places j
  Respond-places e a j = ground (arith, v.places j)

  Respond-Inv :
      {p : ResponsePromise} {r r' : Responder}
      → s.responder ≡ r
      → Respond text s.promise s.now r p r'
      → Inv text (record s { promise = p; responder = r' })
  Respond-Inv e (too_late h) = record {
    never_applied = v.never_applied;
    stored = λ q. cc;
    closed = λ q. ground (arith, v.closed);
    unheld = λ j q. ground (arith, v.unheld j);
    unique = v.unique;
    places = v.places;
  }
  Respond-Inv e a = record {
    never_applied = ground (arith, v.never_applied);
    stored = λ q. ground (arith, v.stored);
    closed = λ q. ground (arith, v.closed);
    unheld = λ j q. ground (arith, v.unheld j);
    unique = v.unique;
    places = Respond-places e a;
  }

tick-Inv :
    {text : String} (s : System) (d : ℕ) → Inv text s → Inv text (record s { now = s.now + d })
tick-Inv s d v = record {
  never_applied = v.never_applied;
  stored = v.stored;
  closed = v.closed;
  unheld = v.unheld;
  unique = v.unique;
  places = λ j. ground (arith, v.places j);
}

-- Every step of every thread keeps the invariant.
pub Step-Inv : {text : String} {s t : System} → Step text s t → Inv text s → Inv text t
Step-Inv {s} (tick d) v = tick-Inv s d v
Step-Inv {s} (enter i e) v = enter-Inv s v i e (inl refl)
Step-Inv {s} (enter_then i e h) v = enter-Inv s v i e (inr refl)
Step-Inv {s} (wait i a) v = Await-Inv s v i refl a
Step-Inv {s} (respond a) v = Respond-Inv s v refl a

init-Inv : (text : String) (valid_until now : ℕ) → Inv text (init valid_until now)
unfolding create
init-Inv text valid_until now = record {
  never_applied = refl;
  stored = λ q. cc;
  closed = λ q. refl;
  unheld = λ j q. cc;
  unique = λ j k q r. cc;
  places = λ j. tt;
}

pub Reach-Inv :
    {text : String} {valid_until now : ℕ} {s : System} → Reach text valid_until now s → Inv text s
Reach-Inv {text} {valid_until} {now} start = init-Inv text valid_until now
Reach-Inv (later r st) = Step-Inv st (Reach-Inv r)
