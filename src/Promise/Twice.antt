-- ===== src/Promise/Twice.antt =====
-- A second response to a promise, after the first. The registry's lock keeps the two calls of
-- `on_response` apart (TransactionInterface.cpp), and nothing in `on_response` tells them apart.
use oregano.Base.{ℕ, ◌≤◌, String, ◌≡◌, ◌≢◌, refl, some, if_pos, ℕ_discrete, arith}
use oregano.Promise.{
  answer, ResponsePromise, Waiter, locking, acquired, reading, returned, Responder, waiting,
  finished, update, System, Await, lock, mark_answer, copy, Respond, in_time, store, unlock, Step,
  wait,
}

pub record Twice : Type 0 where
  pub system : System
  pub second : Responder

pub data TwiceStep (text text' : String) (s : Twice) : Twice → Type 0 where
  usual : {t : System} → Step text s.system t → TwiceStep text text' s (record s { system = t })
  again :
      {p : ResponsePromise} {r : Responder}
      → s.system.responder ≡ finished
      → Respond text' s.system.promise s.system.now s.second p r
      → TwiceStep text text' s (record { system = record (s.system) { promise = p }; second = r })

pub data TwiceRun (text text' : String) : Twice → Twice → Type 0 where
  stay : {s : Twice} → TwiceRun text text' s s
  first :
      {s t u : Twice} → TwiceStep text text' s t → TwiceRun text text' t u → TwiceRun text text' s u

update_self : (f : ℕ → Waiter) (i : ℕ) (a : Waiter) → update f i a i ≡ a
update_self f i a = if_pos (ℕ_discrete i i) refl a (f i)

module _ {text : String} where
  waited :
      (s : System) (j : ℕ) {a : Waiter} {p : ResponsePromise} {w : Waiter}
      → s.waiters j ≡ a
      → Await s.promise s.now a p w
      → Step text s (record s { promise = p; waiters = update s.waiters j w })
  waited s j e x = wait j (rw e x)

abbrev pub answered : String → Waiter
answered text = returned (record { resolution = answer; message = some text })

-- The first response is through, and a thread waits in `await`, having called it before a result
-- was read. If a second response comes in time, there is a run in which that thread returns it as
-- its answer, while the other threads stay where they are, also those that have returned the first.
pub second_answer :
    (text text' : String) (s : System) (j : ℕ)
    → s.responder ≡ finished
    → s.waiters j ≡ locking
    → s.now ≤ s.promise.valid_until
    → (t : Twice) × TwiceRun text text' (record { system = s; second = waiting }) t
      × (t.system.waiters j ≡ answered text')
      × ((i : ℕ) → i ≢ j → t.system.waiters i ≡ s.waiters i)
second_answer text text' s j f e h = (
  _,
  first (again f (in_time h)) (
      first (again f store) (
        first (again f unlock) (
          first (usual (waited _ j e (lock refl))) (
            first (usual (waited _ j (update_self s.waiters j acquired) mark_answer)) (
              first (usual (waited _ j (update_self (update s.waiters j acquired) j reading) copy))
                stay))))),
  update_self (update (update s.waiters j acquired) j reading) j (answered text'),
  λ i n. ground arith,
)
