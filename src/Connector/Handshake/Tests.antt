-- ===== src/Connector/Handshake/Tests.antt =====
-- A connector from its constructor to a subscription, and to the end of its thread.
use oregano.Base.{◌+◌, ◌≤◌, ◌≡◌, ◌≢◌, ◌⊎◌, refl, true, false, some, [], ◌∷◌, ℕ_discrete, inr}
use oregano.Connector.Handshake.{
  confirmation, message, Worker, idle, took, stamping, finished, crashed, outside, locked, sending,
  notifying, spinning, clearing, threw, update, System, enter, pass, send, notify, see, Work, go_on,
  finish, consume, pass_on, test, mark, stamp, Owner, opened, joining, Own, started, reset, close,
  wake, call, work, own, init, Reach, start, later,
}
use oregano.Connector.Handshake.Invariant.{confirmations, held}
use oregano.Connector.Handshake.Safety.{never_clashes, own_confirmation, spinning_ends}
use oregano.Connector.Handshake.Shutdown.{Run, stay, worked, waiting-Moves, worker_stops}

-- The connector is open; its worker has seen the constructor's confirmation.
abbrev pub ready : System
ready = record init { inbox = []; worker = idle; subscriber_thread_alive = true; owner = opened }

pub ready_reached : Reach ready
ready_reached =
    let a = later start (work (go_on refl)) in
    let b = later a (work (consume refl)) in
    let c = later b (work (test refl)) in
    let d = later c (work mark) in
    let e = later d (work stamp) in
    let f = later e (own (started refl)) in
    let g = later f (own reset) in later g (work (go_on refl))

abbrev waits : System
waits = record ready {
  subscription_lock = some 0;
  callers =
      update (update (update (update (λ _. outside) 0 locked) 0 sending) 0 notifying) 0 spinning;
  inbox = confirmation ∷ message ∷ [];
}

waits_reached : Reach waits
unfolding ℕ_discrete
waits_reached =
    let a = later ready_reached (call 0 (enter refl refl)) in
    let b = later a (call 0 (pass refl)) in let c = later b (call 0 send) in later c (call 0 notify)

flag-awaited :
    (waits.subscription_status_changed ≡ true)
    ⊎ (confirmations waits.inbox + held waits.worker ≡ 1)
      × ((t : System) × (a : Worker) × Work waits waits.worker t a)
unfolding ℕ_discrete
flag-awaited = spinning_ends waits_reached 0 refl

abbrev confirmed : System
confirmed = record waits {
  subscription_status_changed = true;
  callers = update (waits.callers) 0 clearing;
  inbox = message ∷ [];
  worker = stamping;
}

confirmed_reached : Reach confirmed
unfolding ℕ_discrete
confirmed_reached =
    let a = later waits_reached (work (consume refl)) in
    let b = later a (work (test refl)) in let c = later b (work mark) in later c (call 0 (see refl))

flag-confirmed : (confirmations confirmed.inbox ≡ 0) × (held confirmed.worker ≡ 0)
unfolding ℕ_discrete
flag-confirmed = own_confirmation confirmed_reached 0 refl

never_clashes_example : (confirmed.callers 0 ≢ threw) × (confirmed.worker ≢ crashed)
never_clashes_example = never_clashes confirmed_reached 0

-- The destructor waits for the worker.
abbrev ends : System
ends = record ready { inbox = message ∷ []; is_running = false; owner = joining }

ends_reached : Reach ends
ends_reached = later (later ready_reached (own (close refl))) (own wake)

waiting-Moves_example :
    ((t : System) × (a : Owner) × Own ends ends.owner t a × (a ≢ ends.owner))
    ⊎ ((t : System) × (a : Worker) × Work ends ends.worker t a)
waiting-Moves_example = waiting-Moves ends_reached (inr refl)

ended : Run ends 4 (record ends { inbox = []; worker = finished; subscriber_thread_alive = true })
ended =
    let a = worked {a = took message} stay (consume refl) in
    let b = worked a pass_on in let c = worked b stamp in worked c (finish refl)

worker_stops_example : 4 ≤ 5
worker_stops_example = worker_stops refl ended
