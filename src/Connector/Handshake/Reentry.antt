-- ===== src/Connector/Handshake/Reentry.antt =====
-- A callback of the subscriber thread that itself calls `subscribe` or `unsubscribe` of the
-- connector, for instance by the manager of another interface. The lambda of `on_message` calls it
-- for a message that is not on the technical channel. The subscriber thread is then one of the
-- callers, and stays in the message that it has taken until that call is left.
-- What is looked at begins where the call has the lock; while it waits for the lock of a thread that
-- waits for the flag, neither can go on, which is left out here.
mod Tests
use oregano.Base.{ℕ, ◌≡◌, Bool, true, false, some, [], ◌∷◌, ◌++◌}
use oregano.Connector.Handshake.{
  message, Worker, took, Caller, locked, sending, notifying, spinning, update, System, Call, Work,
  Owner, opened, Own,
}
use oregano.Connector.Handshake.Invariant.{is_inside}

-- A step of a connector whose subscriber thread is the caller `i`: in its call it does no work.
pub data CallbackStep (i : ℕ) (s : System) : System → Type 0 where
  calls :
      (j : ℕ) {t : System} {a : Caller}
      → Call j s (s.callers j) t a
      → CallbackStep i s (record t { callers = update s.callers j a })
  owns : {t : System} {a : Owner} → Own s s.owner t a → CallbackStep i s (record t { owner = a })
  arrives : CallbackStep i s (record s { inbox = s.inbox ++ message ∷ [] })
  works :
      {t : System} {a : Worker}
      → is_inside (s.callers i) ≡ false
      → Work s s.worker t a
      → CallbackStep i s (record t { worker = a })

pub data CallbackRun (i : ℕ) : System → System → Type 0 where
  stay : {s : System} → CallbackRun i s s
  first : {s t u : System} → CallbackStep i s t → CallbackRun i t u → CallbackRun i s u

-- in the method, and the flag has not been seen
abbrev pub is_waiting : Caller → Bool
is_waiting locked = true
is_waiting sending = true
is_waiting notifying = true
is_waiting spinning = true
is_waiting _ = false

-- The subscriber thread is in its call, holds the lock, and the flag is not set.
pub record IsStuck (i : ℕ) (s : System) : Type 0 where
  pub waiting : is_waiting (s.callers i) ≡ true
  pub locked_out : s.subscription_lock ≡ some i
  pub unset : s.subscription_status_changed ≡ false
  pub opened_still : s.owner ≡ opened
  pub in_callback : s.worker ≡ took message
  pub inside : (j : ℕ) → is_inside (s.callers j) ≡ true → s.subscription_lock ≡ some j

abbrev pub Spins : ℕ → System → Type 0
Spins i s = (t : System) × CallbackRun i s t × (t.callers i ≡ spinning)

abbrev placed : ℕ → System → Caller → System
placed i s a = record s { callers = update s.callers i a }
