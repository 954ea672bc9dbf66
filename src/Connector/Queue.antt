-- ===== src/Connector/Queue.antt =====
-- The queue side of the connector: `send_request`, `listen`, `stop_listening`, the loop of the
-- thread `m_queue_worker`, and what the constructor and the destructor do for it. `listen` and
-- `stop_listening` hold m_queue_subscription_lock throughout, and the worker takes it for its test of
-- m_queue_subscriptions_changed: each is one step. So is each other access to a shared member and the
-- worker's call of BRPOP.
pub mod First
pub mod Invariant
pub mod Wakeup
pub mod Order
pub mod Listed
pub mod Shutdown
use oregano.Base.{
  ℕ, String, ◌≡◌, ◌≢◌, Bool, true, false, Option, none, some, List, [], ◌∷◌, ◌++◌, ite,
  String_discrete, if◌then◌else◌,
}
use oregano.Connector.Redis.{RedisLists}

-- The members on the queue side.
pub record QueueState : Type 0 where
  pub technical_channel : String
  pub queue_subscriptions : List String
  pub queue_subscriptions_changed : Bool

-- The constructor, before it starts the worker.
unfoldable pub create : String → QueueState
create technical_channel = record {
  technical_channel = technical_channel;
  queue_subscriptions = technical_channel ∷ [];
  queue_subscriptions_changed = true;
}

-- std::list::remove
unfoldable pub remove : String → List String → List String
remove q [] = []
remove q (x ∷ xs) = ite (String_discrete x q) (remove q xs) (x ∷ remove q xs)

module _ {R : Type 0} (redis : RedisLists R) where
  open redis use {lpush, rpush, brpop}

  unfoldable pub notify_queue_subscription_change : QueueState → R → R
  notify_queue_subscription_change s r = rpush s.technical_channel "" r

  unfoldable pub send_request : String → String → R → R
  send_request queue message r = lpush queue message r

  unfoldable pub listen : String → QueueState → R → QueueState × R
  listen queue s r = (
    record s {
      queue_subscriptions = s.queue_subscriptions ++ queue ∷ [];
      queue_subscriptions_changed = true;
    },
    notify_queue_subscription_change s r,
  )

  unfoldable pub stop_listening : String → QueueState → R → QueueState × R
  stop_listening queue s r = (
    record s {
      queue_subscriptions = remove queue s.queue_subscriptions;
      queue_subscriptions_changed = true;
    },
    notify_queue_subscription_change s r,
  )

-- Where the worker stands.
pub data Place : Type 0 where
  head : Place  -- before the test of m_is_running
  refreshing : Place  -- before it takes the lock
  popping : Place  -- in BRPOP, on its copy of the queues
  popped : String → String → Place  -- before m_queue_thread_alive = true
  took : String → String → Place  -- before it hands over
  finished : Place

-- Where the owner of the connector stands.
pub data Owner : Type 0 where
  starting : Owner  -- in the constructor, waiting for m_queue_thread_alive
  opened : Owner  -- the connector is in use
  closing : Owner  -- in the destructor, after m_is_running = false
  joining : Owner  -- in `join`
  closed : Owner

pub record System (R : Type 0) : Type 0 where
  pub state : QueueState
  pub queues : List String  -- the worker's own copy
  pub place : Place
  pub server : R
  pub handed : List (String × String)  -- the calls of m_on_queue_callback so far
  pub is_running : Bool
  pub queue_thread_alive : Bool
  pub owner : Owner

module _ {R : Type 0} (redis : RedisLists R) where
  open redis use {lists, brpop}

  -- The test of m_queue_subscriptions_changed in the worker's loop.
  unfoldable pub refresh : System R → System R
  refresh s =
      if s.state.queue_subscriptions_changed
      then record s {
        state = record (s.state) { queue_subscriptions_changed = false };
        queues = s.state.queue_subscriptions;
        place = popping;
      }
      else record s { place = popping }

  -- What the worker does with what it took; a callback that throws ends the program.
  unfoldable pub hand_over : String → String → System R → System R
  hand_over queue message s =
      ite (String_discrete queue s.state.technical_channel) (record s { place = head })
        (record s { place = head; handed = s.handed ++ (queue, message) ∷ [] })

  -- One step of the worker.
  pub data Work (s : System R) : System R → Type 0 where
    go_on : s.place ≡ head → s.is_running ≡ true → Work s (record s { place = refreshing })
    finish : s.place ≡ head → s.is_running ≡ false → Work s (record s { place = finished })
    test : s.place ≡ refreshing → Work s (refresh s)
    pop :
        {q m : String} {r : R}
        → s.place ≡ popping
        → brpop s.queues s.server ≡ some ((q, m), r)
        → Work s (record s { place = popped q m; server = r })
    stamp :
        {q m : String}
        → s.place ≡ popped q m
        → Work s (record s { place = took q m; queue_thread_alive = true })
    give : {q m : String} → s.place ≡ took q m → Work s (hand_over q m s)

  -- One step of another thread. The methods are called on an open connector, and the destructor
  -- runs when no call of a method is under way.
  pub data Other (s : System R) : System R → Type 0 where
    nudge :
        s.owner ≡ starting
        → s.queue_thread_alive ≡ false
        → Other s (record s { server = notify_queue_subscription_change redis s.state s.server })
    started :
        s.owner ≡ starting → s.queue_thread_alive ≡ true → Other s (record s { owner = opened })
    listens :
        (q : String)
        → s.owner ≡ opened
        → Other s (record s {
          state = (listen redis q s.state s.server).0;
          server = (listen redis q s.state s.server).1;
        })
    stops :
        (q : String)
        → s.owner ≡ opened
        → q ≢ s.state.technical_channel
        → Other s (record s {
          state = (stop_listening redis q s.state s.server).0;
          server = (stop_listening redis q s.state s.server).1;
        })
    close : s.owner ≡ opened → Other s (record s { owner = closing; is_running = false })
    wake :
        s.owner ≡ closing
        → Other s (record s {
          owner = joining;
          server = notify_queue_subscription_change redis s.state s.server;
        })
    join : s.owner ≡ joining → s.place ≡ finished → Other s (record s { owner = closed })
    -- Any client pushes and pops, but for the list of the technical channel, whose name is drawn
    -- at random and known to this connector only.
    others :
        {r : R}
        → lists r s.state.technical_channel ≡ lists s.server s.state.technical_channel
        → Other s (record s { server = r })

  pub data Step (s : System R) : System R → Type 0 where
    work : {t : System R} → Work s t → Step s t
    other : {t : System R} → Other s t → Step s t

  abbrev pub init : String → R → System R
  init technical_channel r = record {
    state = create technical_channel;
    queues = [];
    place = head;
    server = r;
    handed = [];
    is_running = true;
    queue_thread_alive = false;
    owner = starting;
  }

  pub data Reach (technical_channel : String) (r : R) : System R → Type 0 where
    start : Reach technical_channel r (init technical_channel r)
    later : {s t : System R} → Reach technical_channel r s → Step s t → Reach technical_channel r t
