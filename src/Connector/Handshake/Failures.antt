-- ===== src/Connector/Handshake/Failures.antt =====
-- `subscribe` and `unsubscribe` when the connection throws: the command to the server, or the
-- publication of `notify_event_subscription_change` after it. The guard gives the lock up, and the
-- exception leaves the method; the wait for the confirmation and the reset of
-- m_subscription_status_changed are skipped. A thread that calls again counts as another caller.
pub mod Jam
mod Tests
use oregano.Base.{
  ℕ, ◌+◌, ◌≡◌, ◌≢◌, refl, Bool, true, false, Option, none, some, List, [], ◌∷◌, arith, Bool-cases,
  inl, inr,
}
use oregano.Connector.Handshake.{
  Item, confirmation, message, Worker, head, idle, took, marking, stamping, finished, crashed,
  Caller, outside, locked, sending, notifying, threw, update, System, Call, enter, refuse, pass,
  send, notify, see, clear, leave, Work, go_on, finish, consume, pass_on, clash, test, mark, stamp,
  Owner, opened, Own, nudge, started, reset, close, wake, join, Step, call, work, own, arrive,
  Reach,
}
use oregano.Connector.Handshake.Invariant.{
  confirmations, held, flagged, constructing, is_inside, owed-le-one,
}
use oregano.Connector.Handshake.Steps.{Reach-Inv}

-- What an exception of the connection does to a call.
pub data Fail (i : ℕ) (s : System) : Caller → System → Caller → Type 0 where
  command : Fail i s sending (record s { subscription_lock = none }) threw
  notification : Fail i s notifying (record s { subscription_lock = none }) threw

pub data FailingStep (s : System) : System → Type 0 where
  usual : {t : System} → Step s t → FailingStep s t
  fail :
      (i : ℕ) {t : System} {a : Caller}
      → Fail i s (s.callers i) t a
      → FailingStep s (record t { callers = update s.callers i a })

pub data FailingRun : System → System → Type 0 where
  stay : {s : System} → FailingRun s s
  first : {s t u : System} → FailingStep s t → FailingRun t u → FailingRun s u

abbrev pub is_kept_out : Caller → Bool
is_kept_out outside = true
is_kept_out locked = true
is_kept_out threw = true
is_kept_out _ = false

-- A connector past its constructor whose flag is set, and nobody is there to reset it.
pub record IsJammed (s : System) : Type 0 where
  pub set : s.subscription_status_changed ≡ true
  pub kept_out : (i : ℕ) → is_kept_out (s.callers i) ≡ true
  pub built : constructing s.owner ≡ 0

module _ (s : System) (v : IsJammed s) where
  Call-IsJammed :
      (i : ℕ) {t : System} {a b : Caller}
      → s.callers i ≡ a
      → Call i s a t b
      → IsJammed (record t { callers = update s.callers i b })
  Call-IsJammed i e (enter h k) = ground (arith, v.kept_out)
  Call-IsJammed i e (refuse h) = ground (arith, v.kept_out)
  Call-IsJammed i e (pass h) = absurd ground (arith, v.set)
  Call-IsJammed i e send = absurd ground (arith, v.kept_out i)
  Call-IsJammed i e notify = absurd ground (arith, v.kept_out i)
  Call-IsJammed i e (see h) = absurd ground (arith, v.kept_out i)
  Call-IsJammed i e clear = absurd ground (arith, v.kept_out i)
  Call-IsJammed i e leave = absurd ground (arith, v.kept_out i)

  Work-IsJammed : {t : System} {a b : Worker} → Work s a t b → IsJammed (record t { worker = b })
  Work-IsJammed (go_on h) = ground arith
  Work-IsJammed (finish h) = ground arith
  Work-IsJammed (consume h) = ground arith
  Work-IsJammed pass_on = ground arith
  Work-IsJammed (clash h) = ground arith
  Work-IsJammed (test h) = ground arith
  Work-IsJammed mark = ground arith
  Work-IsJammed stamp = ground arith

  Own-IsJammed :
      {t : System} {a b : Owner} → s.owner ≡ a → Own s a t b → IsJammed (record t { owner = b })
  Own-IsJammed e (nudge h) = ground arith
  Own-IsJammed e (started h) = ground arith
  Own-IsJammed e reset = ground arith
  Own-IsJammed e (close h) = ground arith
  Own-IsJammed e wake = ground arith
  Own-IsJammed e (join h) = ground arith

  Fail-IsKeptOut :
      (i : ℕ) {t : System} {a b : Caller}
      → s.callers i ≡ a
      → Fail i s a t b
      → IsJammed (record t { callers = update s.callers i b })
  Fail-IsKeptOut i e command = absurd ground (arith, v.kept_out i)
  Fail-IsKeptOut i e notification = absurd ground (arith, v.kept_out i)

refused :
    (s : System) (v : IsJammed s) (i : ℕ) {t : System} {a b : Caller}
    → a ≡ locked
    → Call i s a t b
    → b ≡ threw
refused s v i e (refuse h) = refl
refused s v i e (pass h) = absurd ground (arith, v.set)
refused s v i e (enter h k) = cc
refused s v i e send = cc
refused s v i e notify = cc
refused s v i e (see h) = cc
refused s v i e clear = cc
refused s v i e leave = cc

FailingStep-IsJammed : {s t : System} → FailingStep s t → IsJammed s → IsJammed t
FailingStep-IsJammed {s} (usual (call i x)) v = Call-IsJammed s v i refl x
FailingStep-IsJammed {s} (usual (work x)) v = Work-IsJammed s v x
FailingStep-IsJammed {s} (usual (own x)) v = Own-IsJammed s v refl x
FailingStep-IsJammed {s} (usual arrive) v = record {
  set = v.set;
  kept_out = v.kept_out;
  built = v.built;
}
FailingStep-IsJammed {s} (fail i x) v = Fail-IsKeptOut s v i refl x

FailingRun-IsJammed : {s t : System} → FailingRun s t → IsJammed s → IsJammed t
FailingRun-IsJammed stay v = v
FailingRun-IsJammed (first x r) v = FailingRun-IsJammed r (FailingStep-IsJammed x v)

-- A jammed connector stays jammed, whatever its threads and its connection do: every later call of
-- the two methods is refused with the exception that demands mutual exclusion, as soon as it has
-- the lock.
pub IsJammed-for_ever :
    {s t : System}
    → IsJammed s
    → FailingRun s t
    → IsJammed t
      × ((i : ℕ) (u : System) (a : Caller)
          → t.callers i ≡ locked
          → Call i t (t.callers i) u a
          → a ≡ threw)
IsJammed-for_ever v r = let w = FailingRun-IsJammed r v in (w, λ i u a e x. refused _ w i e x)
