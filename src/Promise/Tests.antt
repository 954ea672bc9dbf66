-- ===== src/Promise/Tests.antt =====
-- A response that comes in time, for one thread that awaits it, and the calls that follow.
use oregano.Base.{ℕ, ◌≤◌, ◌≡◌, ◌≢◌, ◌⊎◌, refl, true, none, some, arith, ℕ_discrete}
use oregano.Promise.{
  answer, timeout, Response, read_twice, create, then_outcome, terminated, absent, called, unread,
  locking, acquired, reading, returned, raised, waiting, finished, update, with_thread, System,
  is_read, is_unread, not_applied, lock, mark_answer, copy, in_time, store, unlock, tick, enter,
  enter_then, wait, respond, Reach, start, later,
}
use oregano.Promise.Twice.{Twice, TwiceRun, second_answer}
use oregano.Promise.Outcomes.{await_outcome, one_answer, read_once, then_twice}

abbrev hello : Response
hello = record { resolution = answer; message = some "hello" }

-- Thread 0 has the answer, and thread 1 calls `await`.
abbrev answered : System
answered = record {
  promise = record (create 10) { response = "hello"; result_read = true };
  now = 0;
  waiters =
      update
        (update
          (update
            (update (update (update (update (λ _. absent) 0 called) 0 unread) 0 locking) 0 acquired)
            0 reading)
          0 (returned hello))
        1 called;
  responder = finished;
}

answered_reached : Reach "hello" 10 0 answered
unfolding create ℕ_discrete
answered_reached =
    let a0 = later start (enter 0 refl) in
    let a1 = later a0 (wait 0 (is_unread refl)) in
    let a2 = later a1 (wait 0 (not_applied refl)) in
    let a3 = later a2 (respond (in_time (omega arith))) in
    let a4 = later a3 (respond store) in
    let a5 = later a4 (respond unlock) in
    let a6 = later a5 (wait 0 (lock refl)) in
    let a7 = later a6 (wait 0 mark_answer) in
    let a8 = later a7 (wait 0 copy) in later a8 (enter 1 refl)

await_outcome_example :
    (hello ≡ hello) ⊎ (hello ≡ record { resolution = timeout; message = none }) × (10 ≤ 0)
unfolding create ℕ_discrete
await_outcome_example = await_outcome answered_reached 0 hello refl

one_answer_example : ◌≡◌ {A = ℕ} 0 0
unfolding ℕ_discrete
one_answer_example = one_answer answered_reached 0 0 hello hello refl refl refl refl

read_once_example : raised read_twice ≡ raised read_twice
unfolding create ℕ_discrete
read_once_example = read_once answered_reached 0 1 hello refl refl (is_read refl)

-- A thread that `then` has started waits, and the time limit has passed.
abbrev late : System
late = record {
  promise = with_thread (create 10);
  now = 20;
  waiters = update (update (update (λ _. absent) 0 called) 0 unread) 0 locking;
  responder = waiting;
}

late_reached : Reach "hello" 10 0 late
unfolding create then_outcome ℕ_discrete
late_reached =
    let a0 = later start (enter_then 0 refl refl) in
    let a1 = later a0 (wait 0 (is_unread refl)) in
    let a2 = later a1 (wait 0 (not_applied refl)) in later a2 (tick 20)

then_twice_example : then_outcome (late.promise) ≡ terminated
unfolding create
then_twice_example = then_twice late_reached refl refl

-- Thread 1 has called `await` before thread 0 returned the answer.
abbrev second_waits : System
second_waits = record answered { waiters = update (answered.waiters) 1 locking }

second_answer_example :
    (t : Twice) × TwiceRun "hello" "again" (record { system = second_waits; second = waiting }) t
    × (t.system.waiters 1 ≡ returned (record { resolution = answer; message = some "again" }))
    × ((i : ℕ) → i ≢ 1 → t.system.waiters i ≡ second_waits.waiters i)
unfolding create ℕ_discrete
second_answer_example = second_answer "hello" "again" second_waits 1 refl refl (omega arith)
