-- ===== src/Promise/Lifetime/Tests.antt =====
-- A promise that a response answers in time, with a callback, and that is then destroyed.
use oregano.Base.{ℕ, ◌≤◌, ◌≡◌, ◌⊎◌, refl, true, false, none, some, arith, ℕ_discrete}
use oregano.Promise.{
  answer, timeout, Response, create, then_outcome, absent, called, unread, locking, acquired,
  reading, returned, finished, update, is_unread, not_applied, lock, mark_answer, copy, in_time,
  store, unlock,
}
use oregano.Promise.Lifetime.{
  joining, destroyed, alive, Life, is_idle, Move, tick, apply, wait, call_back, look_up, respond,
  release, destroy, join, unregister, Reach, start, later,
}
use oregano.Promise.Lifetime.Invariant.{is_responding}
use oregano.Promise.Lifetime.Safety.{destroyed_unused, destroyed_called_back}
use oregano.Promise.Lifetime.Ending.{Run, stay, moved, destructor_ends}
use oregano.Promise.Lifetime.Progress.{CanMove, destructor_moves}

abbrev hi : Response
hi = record { resolution = answer; message = some "hi" }

-- The thread of `then` has the answer and has called back.
abbrev told : Life
told = record {
  system = record {
    promise = record (create 10) { response = "hi"; result_read = true; then_joinable = true };
    now = 0;
    waiters =
        update
          (update
            (update (update (update (update (λ _. absent) 0 called) 0 unread) 0 locking) 0 acquired)
            0 reading)
          0 (returned hi);
    responder = finished;
  };
  owner = alive;
  then_thread = some 0;
  called_back = some hi;
  registered = true;
  registry_locked = false;
}

told_reached : Reach "hi" 10 0 told
unfolding create ℕ_discrete then_outcome
told_reached =
    let a0 = later start (apply 0 refl refl refl) in
    let a1 = later a0 (wait 0 (is_unread refl)) in
    let a2 = later a1 (wait 0 (not_applied refl)) in
    let a3 = later a2 (look_up refl refl refl) in
    let a4 = later a3 (respond refl (in_time (omega arith))) in
    let a5 = later a4 (respond refl store) in
    let a6 = later a5 (respond refl unlock) in
    let a7 = later a6 (release refl refl) in
    let a8 = later a7 (wait 0 (lock refl)) in
    let a9 = later a8 (wait 0 mark_answer) in
    let b0 = later a9 (wait 0 copy) in later b0 (call_back refl refl refl)

abbrev closing : Life
closing = record told { owner = joining }

idle_or_then : (j : ℕ) → (is_idle (told.system.waiters j) ≡ true) ⊎ (told.then_thread ≡ some j)
unfolding ℕ_discrete
idle_or_then j = ground arith

closing_reached : Reach "hi" 10 0 closing
closing_reached = later told_reached (destroy refl idle_or_then)

abbrev gone : Life
gone = record told { owner = destroyed; registered = false }

ended : Run "hi" closing 2 gone
unfolding create
ended = moved (moved stay (join refl refl refl) refl refl) (unregister refl refl) refl refl

gone_reached : Reach "hi" 10 0 gone
unfolding create
gone_reached = later (later closing_reached (join refl refl refl)) (unregister refl refl)

destroyed_unused_example :
    ((j : ℕ) → is_idle (gone.system.waiters j) ≡ true)
    × (is_responding gone.system.responder ≡ false)
    × ((m : Life)
        → Move "hi" gone m
        → (m.owner ≡ destroyed) × (m.system ≡ record (gone.system) { now = m.system.now }))
destroyed_unused_example = destroyed_unused gone_reached refl

destroyed_called_back_example :
    (x : Response) × (gone.called_back ≡ some x)
    × ((x ≡ record { resolution = answer; message = some "hi" })
        ⊎ (x ≡ record { resolution = timeout; message = none })
          × (gone.system.promise.valid_until ≤ gone.system.now))
destroyed_called_back_example = destroyed_called_back gone_reached refl refl

destructor_ends_example : 2 ≤ 13
destructor_ends_example = destructor_ends closing_reached refl ended

-- The response came in time, the destructor after the time limit.
abbrev late : Life
late = record closing { system = record (closing.system) { now = 20 } }

late_reached : Reach "hi" 10 0 late
late_reached = later closing_reached (tick 20)

destructor_moves_example : CanMove "hi" late
unfolding create
destructor_moves_example = destructor_moves late_reached refl (λ q. cc) (omega arith)
