-- ===== src/Promise/Lifetime/Invariant.antt =====
-- What holds of a promise through its life, beside what holds of its threads.
use oregano.Base.{ℕ, String, ◌≡◌, ◌≢◌, refl, Bool, true, false, Option, none, some, arith}
use oregano.Promise.{
  Response, ResponsePromise, create, then_outcome, ThenOutcome, with_thread, Waiter, absent, called,
  returned, Responder, storing, unlocking, Await, Respond, is_read, is_unread, is_applied,
  not_applied, give_up, mark_answer, copy, mark_timeout, too_late, in_time, store, unlock, lock,
}
use oregano.Promise.Lifetime.{
  Owner, alive, joining, unregistering, destroyed, Life, is_idle, with_waiter, Move, tick, await,
  apply, wait, call_back, throw, look_up, respond, release, destroy, skip_join, join, unregister,
  fresh, Reach, start, later,
}

abbrev pub is_some {ℓ} : {A : Type ℓ} → Option A → Bool
is_some none = false
is_some (some a) = true

-- In the destructor, or past it.
abbrev pub is_leaving : Owner → Bool
is_leaving joining = true
is_leaving unregistering = true
is_leaving destroyed = true
is_leaving _ = false

abbrev pub is_destroyed : Owner → Bool
is_destroyed destroyed = true
is_destroyed _ = false

-- The destructor is past its `join`.
abbrev pub is_joined : Owner → Bool
is_joined unregistering = true
is_joined destroyed = true
is_joined _ = false

-- In `on_response`.
abbrev pub is_responding : Responder → Bool
is_responding storing = true
is_responding unlocking = true
is_responding _ = false

pub record IsOrderly (l : Life) : Type 0 where
  pub joinable : l.system.promise.then_joinable ≡ is_some l.then_thread
  pub asked : is_some l.called_back ≡ true → is_some l.then_thread ≡ true
  pub joined :
      is_joined l.owner ≡ true → is_some l.then_thread ≡ true → is_some l.called_back ≡ true
  pub guarded : is_responding l.system.responder ≡ true → l.registry_locked ≡ true
  pub found : l.registry_locked ≡ true → l.registered ≡ true
  pub gone : is_destroyed l.owner ≡ true → l.registered ≡ false

pub record Inv (l : Life) : Type 0 where
  pub orderly : IsOrderly l
  pub answered :
      (i : ℕ) (r : Response)
      → l.then_thread ≡ some i
      → l.called_back ≡ some r
      → l.system.waiters i ≡ returned r
  pub begun : (i : ℕ) → l.then_thread ≡ some i → l.system.waiters i ≢ absent
  pub left :
      (j : ℕ)
      → is_leaving l.owner ≡ true
      → is_idle (l.system.waiters j) ≡ false
      → l.then_thread ≡ some j

-- A step of `await` begins in the call and leaves `m_then_thread` alone.
pub Await-kept :
    {p q : ResponsePromise} {now : ℕ} {w v : Waiter}
    → Await p now w q v
    → (is_idle w ≡ false) × (q.then_joinable ≡ p.then_joinable) × (v ≢ absent)
Await-kept (is_read h) = (refl, refl, λ q. cc)
Await-kept (is_unread h) = (refl, refl, λ q. cc)
Await-kept (is_applied h) = (refl, refl, λ q. cc)
Await-kept (not_applied h) = (refl, refl, λ q. cc)
Await-kept (lock h) = (refl, refl, λ q. cc)
Await-kept (give_up h k) = (refl, refl, λ q. cc)
Await-kept mark_answer = (refl, refl, λ q. cc)
Await-kept copy = (refl, refl, λ q. cc)
Await-kept mark_timeout = (refl, refl, λ q. cc)

Respond-kept :
    {text : String} {p q : ResponsePromise} {now : ℕ} {r s : Responder}
    → Respond text p now r q s
    → q.then_joinable ≡ p.then_joinable
Respond-kept (too_late h) = refl
Respond-kept (in_time h) = refl
Respond-kept store = refl
Respond-kept unlock = refl

module _ (l : Life) (v : Inv l) where
  wait-Inv :
      (i : ℕ) {p : ResponsePromise} (w : Waiter)
      → (is_idle (l.system.waiters i) ≡ false)
        × (p.then_joinable ≡ l.system.promise.then_joinable)
        × (w ≢ absent)
      → Inv (record l { system = with_waiter l.system p i w })
  wait-Inv i w a = record {
    orderly = ground (arith, v.orderly);
    answered = λ j r t c. ground (arith, v.answered j r t c);
    begun = λ j t e. ground (arith, v.begun j t);
    left = λ j o n. ground (arith, v.left j o, v.left i o);
  }

  await-Inv :
      (i : ℕ)
      → l.owner ≡ alive
      → l.system.waiters i ≡ absent
      → Inv (record l { system = with_waiter l.system l.system.promise i called })
  await-Inv i o e = record {
    orderly = ground (arith, v.orderly);
    answered = λ j r t c. ground (arith, v.answered j r t c);
    begun = λ j t e. ground (arith, v.begun j t);
    left = λ j q n. ground arith;
  }

  apply-Inv :
      (i : ℕ)
      → l.owner ≡ alive
      → l.system.waiters i ≡ absent
      → then_outcome l.system.promise ≡ ThenOutcome.started
      → Inv (record l {
        system = with_waiter l.system (with_thread l.system.promise) i called;
        then_thread = some i;
      })
  unfolding then_outcome
  apply-Inv i o e h = record {
    orderly = ground (arith, v.orderly);
    answered = λ j r t c. ground (arith, v.orderly.joinable, v.orderly.asked);
    begun = λ j t e. ground arith;
    left = λ j q s. ground arith;
  }

-- Every move keeps the invariant.
Move-Inv : {text : String} {l m : Life} → Inv l → Move text l m → Inv m
Move-Inv {l = l} v (tick d) = record {
  orderly = ground (arith, v.orderly);
  answered = v.answered;
  begun = v.begun;
  left = v.left;
}
Move-Inv {l = l} v (await i o e) = await-Inv l v i o e
Move-Inv {l = l} v (apply i o e h) = apply-Inv l v i o e h
Move-Inv {l = l} v (wait i {w = w} a) = wait-Inv l v i w (Await-kept a)
Move-Inv {l = l} v (respond f a) = record {
  orderly = ground (arith, v.orderly, Respond-kept a);
  answered = v.answered;
  begun = v.begun;
  left = v.left;
}
Move-Inv {l = l} v (call_back {i} {r} t c e) = record {
  orderly = ground (arith, v.orderly);
  answered = λ j x s f. ground arith;
  begun = v.begun;
  left = v.left;
}
Move-Inv {l = l} v (look_up f g e) = record {
  orderly = ground (arith, v.orderly);
  answered = v.answered;
  begun = v.begun;
  left = v.left;
}
Move-Inv {l = l} v (release f e) = record {
  orderly = ground (arith, v.orderly);
  answered = v.answered;
  begun = v.begun;
  left = v.left;
}
Move-Inv {l = l} v (throw t e) = record {
  orderly = ground (arith, v.orderly);
  answered = v.answered;
  begun = v.begun;
  left = λ j q n. cc;
}
Move-Inv {l = l} v (destroy o h) = record {
  orderly = ground (arith, v.orderly);
  answered = v.answered;
  begun = v.begun;
  left = λ j q n. ground (arith, h j);
}
Move-Inv {l = l} v (skip_join o h) = record {
  orderly = ground (arith, v.orderly);
  answered = v.answered;
  begun = v.begun;
  left = λ j q n. ground (arith, v.left j);
}
Move-Inv {l = l} v (join o h e) = record {
  orderly = ground (arith, v.orderly);
  answered = v.answered;
  begun = v.begun;
  left = λ j q n. ground (arith, v.left j);
}
Move-Inv {l = l} v (unregister o h) = record {
  orderly = ground (arith, v.orderly);
  answered = v.answered;
  begun = v.begun;
  left = λ j q n. ground (arith, v.left j);
}

fresh-Inv : (valid_until now : ℕ) → Inv (fresh valid_until now)
unfolding create
fresh-Inv valid_until now = record {
  orderly = ground arith;
  answered = λ j r t c. cc;
  begun = λ j t e. cc;
  left = λ j q n. cc;
}

pub Reach-Inv :
    {text : String} {valid_until now : ℕ} {l : Life} → Reach text valid_until now l → Inv l
Reach-Inv {valid_until = valid_until} {now = now} start = fresh-Inv valid_until now
Reach-Inv (later r x) = Move-Inv (Reach-Inv r) x
