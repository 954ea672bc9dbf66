-- ===== src/Promise/Lifetime.antt =====
-- src/implementation/ResponsePromise.cpp with its destructor, the callback of `then`, and the
-- registry of TransactionInterface.cpp: the response thread holds m_on_response_callbacks_lock from
-- the lookup of the promise to the end of `on_response`, and the destructor takes the promise off
-- the registry under the same lock. The other steps are those of the parent, the threads in `await`
-- and in `on_response`.
pub mod Invariant
pub mod Safety
pub mod Ending
pub mod Progress
mod Tests
use oregano.Base.{ℕ, ◌+◌, String, ◌≡◌, ◌⊎◌, Bool, true, false, Option, none, some, Exception}
use oregano.Promise.{
  Response, ResponsePromise, then_outcome, ThenOutcome, with_thread, Waiter, absent, called,
  returned, raised, Responder, waiting, finished, ignored, update, System, Await, Respond, init,
}

-- Where the owner of the promise stands.
pub data Owner : Type 0 where
  alive : Owner
  joining : Owner  -- in the destructor, before `join`
  unregistering : Owner  -- before the promise is taken off the registry
  destroyed : Owner
  terminated : Owner  -- an exception has left the thread of `then`, which ends the program

pub record Life : Type 0 where
  pub system : System
  pub owner : Owner
  pub then_thread : Option ℕ  -- the thread that `then` has started
  pub called_back : Option Response  -- what its callback was called with
  pub registered : Bool
  pub registry_locked : Bool  -- by the thread that brings the response

-- A thread that is not in a call of `await`.
abbrev pub is_idle : Waiter → Bool
is_idle absent = true
is_idle (returned r) = true
is_idle (raised e) = true
is_idle _ = false

-- `on_response` has returned.
abbrev pub is_over : Responder → Bool
is_over finished = true
is_over ignored = true
is_over _ = false

abbrev pub with_waiter : System → ResponsePromise → ℕ → Waiter → System
with_waiter s p i w = record s { promise = p; waiters = update s.waiters i w }

pub data Move (text : String) (l : Life) : Life → Type 0 where
  tick : (d : ℕ) → Move text l (record l { system = record (l.system) { now = l.system.now + d } })
  await :
      (i : ℕ)
      → l.owner ≡ alive
      → l.system.waiters i ≡ absent
      → Move text l (record l { system = with_waiter l.system l.system.promise i called })
  apply :
      (i : ℕ)
      → l.owner ≡ alive
      → l.system.waiters i ≡ absent
      → then_outcome l.system.promise ≡ ThenOutcome.started
      → Move text l (record l {
        system = with_waiter l.system (with_thread l.system.promise) i called;
        then_thread = some i;
      })
  wait :
      (i : ℕ) {p : ResponsePromise} {w : Waiter}
      → Await l.system.promise l.system.now (l.system.waiters i) p w
      → Move text l (record l { system = with_waiter l.system p i w })
  -- The thread of `then` has its result and calls back; the callback returns.
  call_back :
      {i : ℕ} {r : Response}
      → l.then_thread ≡ some i
      → l.called_back ≡ none
      → l.system.waiters i ≡ returned r
      → Move text l (record l { called_back = some r })
  throw :
      {i : ℕ} {e : Exception}
      → l.then_thread ≡ some i
      → l.system.waiters i ≡ raised e
      → Move text l (record l { owner = terminated })
  -- The response thread takes the lock and finds the promise.
  look_up :
      l.registry_locked ≡ false
      → l.registered ≡ true
      → l.system.responder ≡ waiting
      → Move text l (record l { registry_locked = true })
  respond :
      {p : ResponsePromise} {r : Responder}
      → l.registry_locked ≡ true
      → Respond text l.system.promise l.system.now l.system.responder p r
      → Move text l (record l { system = record (l.system) { promise = p; responder = r } })
  release :
      l.registry_locked ≡ true
      → is_over l.system.responder ≡ true
      → Move text l (record l { registry_locked = false })
  -- A promise is destroyed when its user is in no call of it.
  destroy :
      l.owner ≡ alive
      → ((j : ℕ) → (is_idle (l.system.waiters j) ≡ true) ⊎ (l.then_thread ≡ some j))
      → Move text l (record l { owner = joining })
  skip_join :
      l.owner ≡ joining
      → l.system.promise.then_joinable ≡ false
      → Move text l (record l { owner = unregistering })
  join :
      {r : Response}
      → l.owner ≡ joining
      → l.system.promise.then_joinable ≡ true
      → l.called_back ≡ some r
      → Move text l (record l { owner = unregistering })
  unregister :
      l.owner ≡ unregistering
      → l.registry_locked ≡ false
      → Move text l (record l { owner = destroyed; registered = false })

-- A promise that has just been registered.
abbrev pub fresh : ℕ → ℕ → Life
fresh valid_until now = record {
  system = init valid_until now;
  owner = alive;
  then_thread = none;
  called_back = none;
  registered = true;
  registry_locked = false;
}

pub data Reach (text : String) (valid_until now : ℕ) : Life → Type 0 where
  start : Reach text valid_until now (fresh valid_until now)
  later : {l m : Life} → Reach text valid_until now l → Move text l m → Reach text valid_until now m
