-- ===== src/Connector/Handshake/Failures/Jam.antt =====
-- How a failed notification jams the connector: the command was sent, so the server confirms it,
-- and the worker sets the flag when nobody waits for it any more.
use oregano.Base.{ℕ, ◌+◌, ◌≡◌, ◌≢◌, refl, true, none, List, [], ◌∷◌, arith, Bool-cases, inl, inr}
use oregano.Connector.Handshake.{
  Item, confirmation, message, Worker, head, idle, took, marking, stamping, finished, crashed,
  notifying, threw, update, System, Work, go_on, consume, pass_on, test, mark, stamp, opened, work,
  Reach,
}
use oregano.Connector.Handshake.Failures.{
  Fail, notification, usual, fail, FailingRun, stay, first, is_kept_out, IsJammed,
}
use oregano.Connector.Handshake.Invariant.{Inv, confirmations, held, flagged, constructing}
use oregano.Connector.Handshake.Steps.{Reach-Inv}

-- A connector with one confirmation on its way that no caller waits for.
record IsDue (s : System) : Type 0 where
  pub unawaited : (i : ℕ) → is_kept_out (s.callers i) ≡ true
  pub built : constructing s.owner ≡ 0
  pub running : s.is_running ≡ true
  pub due : confirmations s.inbox + held s.worker + flagged s.subscription_status_changed ≡ 1
  pub sound : (s.worker ≢ crashed) × (s.worker ≢ finished)

-- Runs in which only the worker moves, and nothing fails.
pub data WorkerRun : System → System → Type 0 where
  no_more : {s : System} → WorkerRun s s
  works :
      {s t u : System} {a : Worker}
      → Work s s.worker t a
      → WorkerRun (record t { worker = a }) u
      → WorkerRun s u

WorkerRun-FailingRun : {s t : System} → WorkerRun s t → FailingRun s t
WorkerRun-FailingRun no_more = stay
WorkerRun-FailingRun (works x r) = first (usual (work x)) (WorkerRun-FailingRun r)

abbrev pub Jams : System → Type 0
Jams s = (t : System) × WorkerRun s t × IsJammed t

after : {s t : System} {a : Worker} → Work s s.worker t a → Jams (record t { worker = a }) → Jams s
after x (t, r, v) = (t, works x r, v)

abbrev at : System → Worker → System
at s w = record s { worker = w }

module _ (s : System) where
  IsDue-IsJammed : IsDue s → s.subscription_status_changed ≡ true → IsJammed s
  IsDue-IsJammed v e = record { set = e; kept_out = v.unawaited; built = v.built }

  marking-Jams : IsDue (at s marking) → Jams (at s marking)
  marking-Jams v = after mark (_, no_more, ground arith)

took-Jams : (s : System) → IsDue (at s (took confirmation)) → Jams (at s (took confirmation))
took-Jams s v = after (test ground (arith, v.due)) (marking-Jams s ground arith)

abbrev alive : System → System
alive s = record s { subscriber_thread_alive = true }

-- From the end of a round the worker comes back to `consume`.
stamping-Jams :
    (s : System)
    → IsDue (at s stamping)
    → (IsDue (at (alive s) idle) → Jams (at (alive s) idle))
    → Jams (at s stamping)
stamping-Jams s v next = after stamp (after (go_on v.running) (next ground (arith, v.due)))

-- The worker, in `consume` with these items on the connection.
idle-Jams :
    (ms : List Item) (s : System)
    → IsDue (at (record s { inbox = ms }) idle)
    → Jams (at (record s { inbox = ms }) idle)
idle-Jams [] s v = (_, no_more, IsDue-IsJammed _ v ground (arith, v.due))
idle-Jams (confirmation ∷ ms) s v = elim (Bool-cases s.subscription_status_changed) [
  | inl e ↦ (_, no_more, IsDue-IsJammed _ v e)
  | inr e ↦ after (consume refl) (took-Jams (record s { inbox = ms }) ground (arith, v.due))
]
idle-Jams (message ∷ ms) s v = after (consume refl) (
    after pass_on
      (stamping-Jams (record s { inbox = ms }) ground (arith, v.due) (idle-Jams ms (alive s))))

-- The worker wherever it stands.
worker-Jams : (s : System) (w : Worker) → IsDue (at s w) → Jams (at s w)
worker-Jams s idle v = idle-Jams s.inbox s v
worker-Jams s head v = after (go_on v.running) (idle-Jams s.inbox s ground (arith, v.due))
worker-Jams s (took message) v =
    after pass_on (stamping-Jams s ground (arith, v.due) (idle-Jams s.inbox (alive s)))
worker-Jams s (took confirmation) v = elim (Bool-cases s.subscription_status_changed) [
  | inl e ↦ (_, no_more, IsDue-IsJammed _ v e)
  | inr e ↦ took-Jams s v
]
worker-Jams s marking v = marking-Jams s v
worker-Jams s stamping v = stamping-Jams s v (idle-Jams s.inbox (alive s))
worker-Jams s finished v = absurd (v.sound.1 refl)
worker-Jams s crashed v = absurd (v.sound.0 refl)

-- A connector whose caller has just left without its confirmation.
abbrev pub left_by : ℕ → System → System
left_by i s = record s { subscription_lock = none; callers = update s.callers i threw }

failed-IsDue :
    (s : System) (i : ℕ) → Inv s → s.owner ≡ opened → s.callers i ≡ notifying → IsDue (left_by i s)
failed-IsDue s i v o e =
    let x = v.exclusive in
    let p = v.paced in
    record {
      unawaited = λ j. ground (arith, x.inside i, x.inside j);
      built = ground arith;
      running = ground arith;
      due = ground (arith, x.inside i);
      sound = (p.running, λ f. ground arith);
    }

-- On an open connector, reached without a failure, a caller has sent its command. Its notification
-- can fail, by which it gives the lock up and leaves with the exception; and from there the worker
-- alone, by its usual steps, comes to a state with the flag set and nobody there to reset it. The
-- failure and these steps are a run of the connector.
pub failed_notification :
    {s : System} (i : ℕ)
    → Reach s
    → s.owner ≡ opened
    → s.callers i ≡ notifying
    → Fail i s (s.callers i) (record s { subscription_lock = none }) threw
      × ((t : System) × WorkerRun (left_by i s) t × FailingRun s t × IsJammed t)
failed_notification {s} i r o e =
    let (t, q, j) = worker-Jams (left_by i s) s.worker (failed-IsDue s i (Reach-Inv r) o e) in
    let x : Fail i s (s.callers i) (record s { subscription_lock = none }) threw =
      rw e notification in
    (x, (t, q, first (fail i x) (WorkerRun-FailingRun q), j))
