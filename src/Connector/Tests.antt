-- ===== src/Connector/Tests.antt =====
-- A connector on lists in memory: it serves requests, is woken up, and ends.
use oregano.Base.{
  ℕ, String, Bool, ok, not, ◌==◌, ◌≡◌, ◌≤◌, ◌⊎◌, refl, List, [], ◌∷◌, ◌++◌, String_discrete, All,
  arith, inl, false, true,
}
use oregano.Connector.Memory.{Memory, set, memory, nothing, flags}
use oregano.Connector.Queue.{
  create, System, popping, finished, opened, joining, refresh, hand_over, listen, stop_listening,
  send_request, notify_queue_subscription_change, Work, go_on, finish, test, pop, stamp, give,
  nudge, started, listens, close, wake, work, other, Reach, start, later,
}
use oregano.Connector.Queue.Shutdown.{Run, stay, worked, woken_moves, queue_worker_stops}
use oregano.Broker.{MessageBroker, Brokered, as_broker, call_back, call_event_callbacks}
use oregano.Connector.Delivered.{managed, event_delivered}
use oregano.Connector.Methods.{
  RedisBrokerConnector, connector, set_on_subscriber_callback, on_message,
}
use oregano.Connector.Methods
use oregano.Dict.{find}
use oregano.Events
use oregano.Manager.Dispatch.{sent}
use oregano.RoundTrip.Plain.{plain_base64}
use oregano.Connector.Served.{deployed, deployed_topics}
use oregano.Manager
use oregano.Manager.{MessageHandlerManager, SubscriptionType, event, transaction}
use oregano.Manager.Requests.{Request, add, remove_all}
use oregano.Sharing.{run_all}
use oregano.Sharing.Counts.{total}
use oregano.Connector.Queue.Wakeup.{no_lost_wakeup}
use oregano.Connector.Queue.Listed.{is_in, listen-stop_listening}
use oregano.Connector.Queue.Order.{Traffic, idle, sends, takes, elsewhere, fifo, pending}

-- An open connector whose worker was woken up by a `listen` and is blocked again.
abbrev woken : System Memory
woken = record {
  state = record {
    technical_channel = "technical";
    queue_subscriptions = "technical" ∷ "work" ∷ [];
    queue_subscriptions_changed = false;
  };
  queues = "technical" ∷ "work" ∷ [];
  place = popping;
  server =
      set "technical" []
        (set "technical" ("" ∷ []) (set "technical" [] (set "technical" ("" ∷ []) nothing)));
  handed = [];
  is_running = true;
  queue_thread_alive = true;
  owner = opened;
}

woken_reached : Reach memory "technical" nothing woken
unfolding create refresh hand_over listen notify_queue_subscription_change String_discrete
woken_reached =
    let a = later start (work (go_on refl refl)) in
    let b = later a (work (test refl)) in
    let c = later b (other (nudge refl refl)) in
    let d = later c (work (pop {q = "technical"} {m = ""} refl refl)) in
    let e = later d (work (stamp refl)) in
    let f = later e (other (started refl refl)) in
    let g = later f (work (give refl)) in
    let h = later g (other (listens "work" refl)) in
    let i = later h (work (go_on refl refl)) in
    let j = later i (work (test refl)) in
    let k = later j (work (pop {q = "technical"} {m = ""} refl refl)) in
    let l = later k (work (stamp refl)) in
    let m = later l (work (give refl)) in
    let n = later m (work (go_on refl refl)) in later n (work (test refl))

no_lost_wakeup_example :
    (woken.queues ≡ woken.state.queue_subscriptions)
    × All (λ q. woken.server q ≡ []) ("technical" ∷ "work" ∷ [])
unfolding String_discrete
no_lost_wakeup_example = no_lost_wakeup memory {s = woken} woken_reached refl refl

served : Traffic memory "work" nothing ("a" ∷ "b" ∷ []) ("a" ∷ []) (set "work" ("b" ∷ []) nothing)
unfolding send_request String_discrete
served =
    elsewhere
      (takes {qs = "work" ∷ []} {m = "a"}
        (sends {s = send_request memory "work" "a" nothing} "b" (sends {s = nothing} "a" idle))
        refl)
      refl

fifo_example :
    ("a" ∷ []) ++ pending memory "work" (set "work" ("b" ∷ []) nothing) ≡ [] ++ ("a" ∷ "b" ∷ [])
unfolding String_discrete
fifo_example = fifo memory "work" served

work-listed :
    (is_in "work" (listen memory "work" woken.state woken.server).0.queue_subscriptions ≡ true)
    × (is_in "work" (stop_listening memory "work" woken.state woken.server).0.queue_subscriptions
        ≡ false)
unfolding String_discrete
work-listed = listen-stop_listening memory "work" "work" woken.state woken.server

-- The destructor of the same connector.
abbrev ends : System Memory
ends = record woken {
  is_running = false;
  owner = joining;
  server = set "technical" ("" ∷ []) woken.server;
}

ends_reached : Reach memory "technical" nothing ends
unfolding notify_queue_subscription_change String_discrete
ends_reached = later (later woken_reached (other (close refl))) (other (wake refl))

woken_moves_example : (ends.place ≡ finished) ⊎ ((t : System Memory) × Work memory ends t)
woken_moves_example = woken_moves memory ends_reached (inl refl)

ended :
    Run memory ends 4 (record ends { place = finished; server = set "technical" [] ends.server })
unfolding hand_over String_discrete
ended =
    let a = worked stay (pop {q = "technical"} {m = ""} refl refl) in
    let b = worked a (stamp refl) in let c = worked b (give refl) in worked c (finish refl refl)

queue_worker_stops_example : 4 ≤ 5
queue_worker_stops_example = queue_worker_stops memory refl ended

-- Two event interfaces and a transaction interface on a connector.
abbrev interfaces : List SubscriptionType
interfaces = event ∷ event ∷ transaction ∷ []

abbrev history : List (ℕ × Request)
history = (0, add "news" 7) ∷ (1, add "news" 8) ∷ (2, add "jobs" 9) ∷ (0, remove_all 7) ∷ []

deployed_topics_example :
    let after =
      run_all
        (as_broker {C = ℕ} (connector memory flags))
        history
        (deployed ℕ memory flags "technical" nothing (λ j. false) interfaces) in
    (after.broker.connector.channels "news" ≡ not (total event after.managers "news" == 0))
    × (is_in "news" after.broker.connector.queue.queue_subscriptions
        ≡ not (total transaction after.managers "news" == 0))
unfolding Manager.create String_discrete
deployed_topics_example =
    deployed_topics ℕ memory flags "technical" nothing (λ j. false) interfaces history
      (tt, (tt, (tt, tt))) (omega arith) (λ j. refl) "news" (λ e. cc)

-- An event for three subscribers of two interfaces.
abbrev readers : List ℕ → MessageHandlerManager
readers hs = record { subscription_type = event; channel_subscriptions = ("news", hs) ∷ [] }

abbrev attached : MessageBroker MessageHandlerManager
attached = record {
  channel_subscriptions = ("news", 2) ∷ [];
  queue_subscriptions = [];
  event_callbacks = ("a", readers (7 ∷ 8 ∷ [])) ∷ ("b", readers (9 ∷ [])) ∷ [];
  transaction_callbacks = [];
}

abbrev online : Brokered MessageHandlerManager (RedisBrokerConnector Memory (String → Bool))
online = record {
  broker = attached;
  connector =
      (set_on_subscriber_callback memory flags call_event_callbacks
        (Methods.create memory flags "technical" nothing (λ j. false))).1;
}

event_delivered_example :
    (Events.publish plain_base64 (as_broker (connector memory flags)) "news" "hello" online
      ≡ (ok tt, online))
    × (on_message memory flags
          (λ d. call_back (managed plain_base64) d attached)
          online.connector
          "news"
          (plain_base64.encode "hello")
          []
        ≡ (ok tt, sent 7 "news" "hello" ∷ sent 8 "news" "hello" ∷ sent 9 "news" "hello" ∷ []))
unfolding find String_discrete Methods.create set_on_subscriber_callback create
event_delivered_example =
    event_delivered plain_base64 memory flags online online.connector attached "news" "hello" []
      refl (λ e. cc)
