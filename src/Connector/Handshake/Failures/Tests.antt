-- ===== src/Connector/Handshake/Failures/Tests.antt =====
-- A failed notification on an open connector, and a call on the jammed connector.
use oregano.Base.{◌≡◌, refl, true, none, some, [], ◌∷◌, ℕ_discrete, ℕ}
use oregano.Connector.Handshake.{
  confirmation, locked, sending, notifying, threw, outside, update, System, enter, pass, send, call,
  Call, Caller, Reach, later,
}
use oregano.Connector.Handshake.Failures.{
  Fail, FailingRun, usual, stay, first, IsJammed, IsJammed-for_ever,
}
use oregano.Connector.Handshake.Failures.Jam.{WorkerRun, left_by, failed_notification}
use oregano.Connector.Handshake.Tests.{ready, ready_reached}

-- A thread has sent its command.
abbrev sent : System
sent = record ready {
  subscription_lock = some 0;
  callers = update (update (update (λ _. outside) 0 locked) 0 sending) 0 notifying;
  inbox = confirmation ∷ [];
}

sent_reached : Reach sent
unfolding ℕ_discrete
sent_reached =
    let a = later ready_reached (call 0 (enter refl refl)) in
    let b = later a (call 0 (pass refl)) in later b (call 0 send)

failed_notification_example :
    Fail 0 sent (sent.callers 0) (record sent { subscription_lock = none }) threw
    × ((t : System) × WorkerRun (left_by 0 sent) t × FailingRun sent t × IsJammed t)
unfolding ℕ_discrete
failed_notification_example = failed_notification 0 sent_reached refl refl

abbrev jammed : System
jammed = record ready { subscription_status_changed = true }

jammed-IsJammed : IsJammed jammed
jammed-IsJammed = record { set = refl; kept_out = λ i. refl; built = refl }

abbrev entered : System
entered = record jammed { subscription_lock = some 1; callers = update (λ _. outside) 1 locked }

IsJammed-for_ever_example :
    IsJammed entered
    × ((i : ℕ) (u : System) (a : Caller)
        → entered.callers i ≡ locked
        → Call i entered (entered.callers i) u a
        → a ≡ threw)
IsJammed-for_ever_example =
    IsJammed-for_ever jammed-IsJammed (first (usual (call 1 (enter refl refl))) stay)
