-- ===== src/Connector/Handshake.antt =====
-- The connector and its thread `m_subscriber_worker`, from the constructor to the destructor, with
-- the calls of `subscribe` and `unsubscribe` in between. The two methods differ in the command that
-- they send only, and the server confirms either command by one message to the worker, as Redis
-- documents; `on_meta` sets m_subscription_status_changed for it, and the caller waits for that.
-- Each access to a shared member, to the lock m_subscription_lock and to the connection is one
-- step. What the constructor and the destructor do for the other worker is left to Queue. The
-- callback that the worker calls for a message is one step here, `pass_on`: it returns, and calls
-- neither of the two methods. Reentry is about a callback that calls one.
pub mod Invariant
pub mod Steps
pub mod Safety
pub mod Shutdown
pub mod Failures
pub mod Reentry
mod Tests
use oregano.Base.{
  ℕ, ◌≡◌, Bool, true, false, Option, none, some, List, [], ◌∷◌, ◌++◌, ite, ℕ_discrete,
}

-- What the connection brings to the worker.
pub data Item : Type 0 where
  confirmation : Item
  message : Item

-- Where the worker stands.
pub data Worker : Type 0 where
  head : Worker  -- before the test of m_is_running
  idle : Worker  -- in `consume`, with nothing read
  took : Item → Worker
  marking : Worker  -- in `on_meta`, after the test
  stamping : Worker  -- before m_subscriber_thread_alive = true
  finished : Worker
  crashed : Worker

-- Where the owner of the connector stands.
pub data Owner : Type 0 where
  starting : Owner  -- in the constructor, waiting for m_subscriber_thread_alive
  resetting : Owner  -- before the constructor's last assignment
  opened : Owner  -- the connector is in use
  closing : Owner  -- in the destructor, after m_is_running = false
  joining : Owner  -- in `join`
  closed : Owner

-- Where a thread stands that calls `subscribe` or `unsubscribe`.
pub data Caller : Type 0 where
  outside : Caller
  locked : Caller  -- before the test of the flag
  sending : Caller
  notifying : Caller
  spinning : Caller
  clearing : Caller
  leaving : Caller
  threw : Caller

abbrev pub update : (ℕ → Caller) → ℕ → Caller → ℕ → Caller
update f i a j = ite (ℕ_discrete i j) a (f j)

pub record System : Type 0 where
  pub subscription_status_changed : Bool
  pub subscription_lock : Option ℕ  -- the thread that holds it
  pub callers : ℕ → Caller
  pub inbox : List Item  -- on the connection, the next one first
  pub worker : Worker
  pub is_running : Bool
  pub subscriber_thread_alive : Bool
  pub owner : Owner

-- One step of a thread in `subscribe` or `unsubscribe`, which are called on an open connector.
pub data Call (i : ℕ) (s : System) : Caller → System → Caller → Type 0 where
  enter :
      s.owner ≡ opened
      → s.subscription_lock ≡ none
      → Call i s outside (record s { subscription_lock = some i }) locked
  refuse :
      s.subscription_status_changed ≡ true
      → Call i s locked (record s { subscription_lock = none }) threw
  pass : s.subscription_status_changed ≡ false → Call i s locked s sending
  send : Call i s sending (record s { inbox = s.inbox ++ confirmation ∷ [] }) notifying
  notify : Call i s notifying (record s { inbox = s.inbox ++ message ∷ [] }) spinning
  see : s.subscription_status_changed ≡ true → Call i s spinning s clearing
  clear : Call i s clearing (record s { subscription_status_changed = false }) leaving
  leave : Call i s leaving (record s { subscription_lock = none }) outside

-- One step of the worker. An exception in `on_meta` ends the program.
pub data Work (s : System) : Worker → System → Worker → Type 0 where
  go_on : s.is_running ≡ true → Work s head s idle
  finish : s.is_running ≡ false → Work s head s finished
  consume :
      {m : Item} {ms : List Item}
      → s.inbox ≡ m ∷ ms
      → Work s idle (record s { inbox = ms }) (took m)
  -- The callback for the message, which returns without a call of the connector's two methods.
  pass_on : Work s (took message) s stamping
  clash : s.subscription_status_changed ≡ true → Work s (took confirmation) s crashed
  test : s.subscription_status_changed ≡ false → Work s (took confirmation) s marking
  mark : Work s marking (record s { subscription_status_changed = true }) stamping
  stamp : Work s stamping (record s { subscriber_thread_alive = true }) head

-- One step of the owner. The destructor runs when no call of a method is under way.
pub data Own (s : System) : Owner → System → Owner → Type 0 where
  nudge :
      s.subscriber_thread_alive ≡ false
      → Own s starting (record s { inbox = s.inbox ++ message ∷ [] }) starting
  started : s.subscriber_thread_alive ≡ true → Own s starting s resetting
  reset : Own s resetting (record s { subscription_status_changed = false }) opened
  close : s.subscription_lock ≡ none → Own s opened (record s { is_running = false }) closing
  wake : Own s closing (record s { inbox = s.inbox ++ message ∷ [] }) joining
  join : s.worker ≡ finished → Own s joining s closed

pub data Step (s : System) : System → Type 0 where
  call :
      (i : ℕ) {t : System} {a : Caller}
      → Call i s (s.callers i) t a
      → Step s (record t { callers = update s.callers i a })
  work : {t : System} {a : Worker} → Work s s.worker t a → Step s (record t { worker = a })
  own : {t : System} {a : Owner} → Own s s.owner t a → Step s (record t { owner = a })
  -- A publication of any client arrives.
  arrive : Step s (record s { inbox = s.inbox ++ message ∷ [] })

-- The constructor has subscribed to the technical channel and started the worker.
abbrev pub init : System
init = record {
  subscription_status_changed = false;
  subscription_lock = none;
  callers = λ _. outside;
  inbox = confirmation ∷ [];
  worker = head;
  is_running = true;
  subscriber_thread_alive = false;
  owner = starting;
}

pub data Reach : System → Type 0 where
  start : Reach init
  later : {s t : System} → Reach s → Step s t → Reach t
