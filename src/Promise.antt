-- ===== src/Promise.antt =====
-- src/implementation/ResponsePromise.cpp and .h, and IResponsePromise.h: a response that is awaited
-- by threads of the user and set by the thread of the response channel. The mutex is locked from
-- the start and unlocked by the response. One access to a shared member is one step; the accesses
-- of different threads interleave in any order.
pub mod Invariant
pub mod Outcomes
pub mod Lifetime
pub mod Twice
mod Tests
use oregano.Base.{
  ℕ, ◌+◌, ◌≤◌, ◌<◌, String, ◌≡◌, Bool, true, false, Option, none, some, ite, ℕ_discrete, Exception,
  if◌then◌else◌,
}

pub data Resolution : Type 0 where
  answer : Resolution
  timeout : Resolution

-- `response_t`
pub record Response : Type 0 where
  pub resolution : Resolution
  pub message : Option String

abbrev pub read_twice : Exception
read_twice = Exception.result_already_read "Result already read from the promise!"

abbrev pub applied_twice : Exception
applied_twice = Exception.then_already_applied "Then callback already applied!"

-- The members that the threads share. `then_joinable` says whether `m_then_thread` holds a thread.
pub record ResponsePromise : Type 0 where
  pub response : String
  pub valid_until : ℕ
  pub locked : Bool
  pub result_read : Bool
  pub then_applied : Bool
  pub then_joinable : Bool

-- The constructor, which locks the mutex.
unfoldable pub create : ℕ → ResponsePromise
create valid_until = record {
  response = "";
  valid_until = valid_until;
  locked = true;
  result_read = false;
  then_applied = false;
  then_joinable = false;
}

-- What a call of `then` comes to. The assignment to a `std::thread` that holds a thread calls
-- std::terminate.
pub data ThenOutcome : Type 0 where
  started : ThenOutcome
  threw : Exception → ThenOutcome
  terminated : ThenOutcome

unfoldable pub then_outcome : ResponsePromise → ThenOutcome
then_outcome p =
    if p.result_read
    then threw read_twice
    else if p.then_applied
    then threw applied_twice
    else if p.then_joinable
    then terminated
    else started

-- The promise after a `then` that has started its thread.
abbrev pub with_thread : ResponsePromise → ResponsePromise
with_thread p = record p { then_joinable = true }

-- Where a thread stands in `await`.
pub data Waiter : Type 0 where
  absent : Waiter  -- not there yet
  called : Waiter  -- before the test of m_result_read
  unread : Waiter  -- before the test of m_then_applied
  locking : Waiter  -- in try_lock_until
  acquired : Waiter  -- with the lock, before m_result_read = true
  reading : Waiter  -- with the lock, before m_response is copied
  missed : Waiter  -- without the lock, before m_result_read = true
  returned : Response → Waiter
  raised : Exception → Waiter

-- Where the thread stands that calls `on_response`.
pub data Responder : Type 0 where
  waiting : Responder  -- the response is not there yet
  storing : Responder  -- it came in time; before m_response = p_message
  unlocking : Responder  -- before m_timeout_mutex.unlock()
  finished : Responder
  ignored : Responder  -- it came too late

abbrev pub update : (ℕ → Waiter) → ℕ → Waiter → ℕ → Waiter
update f i a j = ite (ℕ_discrete i j) a (f j)

pub record System : Type 0 where
  pub promise : ResponsePromise
  pub now : ℕ
  pub waiters : ℕ → Waiter
  pub responder : Responder

-- One step of one thread in `await`.
pub data Await (p : ResponsePromise) (now : ℕ) : Waiter → ResponsePromise → Waiter → Type 0 where
  is_read : p.result_read ≡ true → Await p now called p (raised read_twice)
  is_unread : p.result_read ≡ false → Await p now called p unread
  is_applied : p.then_applied ≡ true → Await p now unread p (raised applied_twice)
  not_applied : p.then_applied ≡ false → Await p now unread p locking
  lock : p.locked ≡ false → Await p now locking (record p { locked = true }) acquired
  give_up : p.locked ≡ true → p.valid_until ≤ now → Await p now locking p missed
  mark_answer : Await p now acquired (record p { result_read = true }) reading
  copy :
      Await p now reading p (returned (record { resolution = answer; message = some p.response }))
  mark_timeout :
      Await p now missed
        (record p { result_read = true })
        (returned (record { resolution = timeout; message = none }))

-- One step of the thread in `on_response`, which brings `text`.
pub data Respond (text : String) (p : ResponsePromise) (now : ℕ)
    : Responder → ResponsePromise → Responder → Type 0 where
  too_late : p.valid_until < now → Respond text p now waiting p ignored
  in_time : now ≤ p.valid_until → Respond text p now waiting p storing
  store : Respond text p now storing (record p { response = text }) unlocking
  unlock : Respond text p now unlocking (record p { locked = false }) finished

pub data Step (text : String) (s : System) : System → Type 0 where
  tick : (d : ℕ) → Step text s (record s { now = s.now + d })
  -- A thread of the user calls `await`.
  enter :
      (i : ℕ)
      → s.waiters i ≡ absent
      → Step text s (record s { waiters = update s.waiters i called })
  -- A thread of the user calls `then`, which starts a thread that calls `await`.
  enter_then :
      (i : ℕ)
      → s.waiters i ≡ absent
      → then_outcome s.promise ≡ started
      → Step text s
          (record s { promise = with_thread s.promise; waiters = update s.waiters i called })
  wait :
      (i : ℕ) {p : ResponsePromise} {w : Waiter}
      → Await s.promise s.now (s.waiters i) p w
      → Step text s (record s { promise = p; waiters = update s.waiters i w })
  respond :
      {p : ResponsePromise} {r : Responder}
      → Respond text s.promise s.now s.responder p r
      → Step text s (record s { promise = p; responder = r })

abbrev pub init : ℕ → ℕ → System
init valid_until now = record {
  promise = create valid_until;
  now = now;
  waiters = λ _. absent;
  responder = waiting;
}

-- The states of a promise to which one response may come.
pub data Reach (text : String) (valid_until now : ℕ) : System → Type 0 where
  start : Reach text valid_until now (init valid_until now)
  later :
      {s t : System} → Reach text valid_until now s → Step text s t → Reach text valid_until now t
