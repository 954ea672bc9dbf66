-- ===== src/Connector/Handshake/Invariant.antt =====
-- The invariant of the handshake, on the confirmations that are on their way.
use oregano.Base.{
  ℕ, ◌+◌, ◌≡◌, ◌≢◌, refl, Bool, true, false, Option, none, some, List, [], ◌∷◌, ◌++◌, arith, suc,
  ◌≤◌, is_empty, not, ◌==◌,
}
use oregano.Connector.Handshake.{
  Item, confirmation, message, Worker, head, idle, took, marking, stamping, finished, crashed,
  Owner, starting, resetting, opened, closing, joining, closed, Caller, outside, notifying,
  spinning, clearing, threw, System,
}

-- The confirmations on their way: on the connection, in the worker's hands, and in the flag.
abbrev pub confirmations : List Item → ℕ
confirmations [] = 0
confirmations (confirmation ∷ ms) = suc (confirmations ms)
confirmations (message ∷ ms) = confirmations ms

abbrev pub held : Worker → ℕ
held (took confirmation) = 1
held marking = 1
held _ = 0

abbrev pub flagged : Bool → ℕ
flagged true = 1
flagged false = 0

-- What the holder of the lock has asked for and not yet cleared.
abbrev pub owed : Caller → ℕ
owed notifying = 1
owed spinning = 1
owed clearing = 1
owed _ = 0

abbrev pub owed_by : Option ℕ → (ℕ → Caller) → ℕ
owed_by none f = 0
owed_by (some i) f = owed (f i)

-- The constructor's own subscription is cleared by its last assignment.
abbrev pub constructing : Owner → ℕ
constructing starting = 1
constructing resetting = 1
constructing _ = 0

abbrev pub is_inside : Caller → Bool
is_inside outside = false
is_inside threw = false
is_inside _ = true

abbrev pub is_next_confirmation : List Item → Bool
is_next_confirmation (confirmation ∷ ms) = true
is_next_confirmation _ = false

-- A worker that has not yet reported is still at the constructor's confirmation, or just past it.
abbrev pub is_first_round : Worker → List Item → Bool
is_first_round head ms = is_next_confirmation ms
is_first_round idle ms = is_next_confirmation ms
is_first_round (took confirmation) ms = true
is_first_round marking ms = true
is_first_round stamping ms = confirmations ms == 0
is_first_round _ ms = false

-- An owner in `join` has sent a wake-up.
abbrev pub is_woken : Owner → Worker → List Item → Bool
is_woken joining idle ms = not (is_empty ms)
is_woken _ _ _ = true

abbrev pub is_up : Owner → Bool
is_up closing = false
is_up joining = false
is_up closed = false
is_up _ = true

pub confirmations-append :
    (ms : List Item) (m : Item)
    → confirmations (ms ++ m ∷ []) ≡ confirmations ms + confirmations (m ∷ [])
confirmations-append [] m = omega arith
confirmations-append (confirmation ∷ ms) m = omega (arith, confirmations-append ms m)
confirmations-append (message ∷ ms) m = confirmations-append ms m

pub is_empty-append : (ms : List Item) (m : Item) → is_empty (ms ++ m ∷ []) ≡ false
is_empty-append [] m = refl
is_empty-append (x ∷ ms) m = refl

pub is_next_confirmation-append :
    (ms : List Item) (m : Item)
    → is_next_confirmation ms ≡ true
    → is_next_confirmation (ms ++ m ∷ []) ≡ true
is_next_confirmation-append [] m h = cc
is_next_confirmation-append (confirmation ∷ ms) m h = refl
is_next_confirmation-append (message ∷ ms) m h = cc

-- What holds of the calls, by the flag, the lock and the callers.
pub record IsExclusive (flag : Bool) (lock : Option ℕ) (callers : ℕ → Caller) : Type 0 where
  pub inside : (i : ℕ) → is_inside (callers i) ≡ true → lock ≡ some i
  pub seen : (i : ℕ) → callers i ≡ clearing → flag ≡ true
  pub unrefused : (i : ℕ) → callers i ≢ threw

-- What holds of the worker and the owner.
pub record IsPaced (s : System) : Type 0 where
  pub balanced :
      confirmations s.inbox + held s.worker + flagged s.subscription_status_changed
      ≡ constructing s.owner + owed_by s.subscription_lock s.callers
  pub used : s.owner ≢ opened → s.subscription_lock ≡ none
  pub running : s.worker ≢ crashed
  pub first_round :
      s.subscriber_thread_alive ≡ false
      → constructing s.owner ≡ 1
      → is_first_round s.worker s.inbox ≡ true
  pub reported :
      constructing s.owner ≡ 1
      → s.subscriber_thread_alive ≡ true
      → confirmations s.inbox + held s.worker ≡ 0
  pub past : s.owner ≡ resetting → s.subscriber_thread_alive ≡ true
  pub up : is_up s.owner ≡ s.is_running
  pub ended : s.worker ≡ finished → s.is_running ≡ false
  pub woken : is_woken s.owner s.worker s.inbox ≡ true

pub record Inv (s : System) : Type 0 where
  pub exclusive : IsExclusive s.subscription_status_changed s.subscription_lock s.callers
  pub paced : IsPaced s

pub owed-le-one : (o : Option ℕ) (f : ℕ → Caller) → owed_by o f ≤ 1
owed-le-one o f = ground arith
