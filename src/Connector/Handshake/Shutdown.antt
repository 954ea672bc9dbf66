-- ===== src/Connector/Handshake/Shutdown.antt =====
-- The waits of the constructor and of the destructor.
use oregano.Base.{
  ℕ, ◌+◌, ◌≤◌, ◌<◌, ◌≡◌, ◌≢◌, refl, ◌∙◌, false, zero, suc, arith, Bool-cases, ◌⊎◌, inl, inr,
}
use oregano.Connector.Handshake.{
  Worker, head, idle, took, marking, stamping, finished, crashed, Owner, starting, resetting,
  joining, closed, Caller, System, Call, enter, refuse, pass, send, notify, see, clear, leave, Work,
  go_on, finish, consume, pass_on, clash, test, mark, stamp, Own, nudge, started, reset, close,
  wake, join, message, update, Reach,
}
use oregano.Connector.Handshake.Invariant.{IsPaced}
use oregano.Connector.Handshake.Safety.{worker_moves}
use oregano.Connector.Handshake.Steps.{Reach-Inv}
use oregano.Base.{◌++◌, ◌∷◌, []}

-- How the owner or the worker can go on.
abbrev pub Moves : System → Type 0
Moves s =
    ((t : System) × (a : Owner) × Own s s.owner t a × (a ≢ s.owner))
    ⊎ ((t : System) × (a : Worker) × Work s s.worker t a)

starting-Moves : (s : System) → IsPaced s → s.owner ≡ starting → Moves s
starting-Moves s v e = elim (Bool-cases s.subscriber_thread_alive) [
  | inl a ↦ inl (s, resetting, rw e (started a), λ q. cc)
  | inr a ↦ inr (
      worker_moves s s.worker v.running (λ q. ground arith) (λ q. ground arith) (λ q. ground arith))
]

finished-cases : (w : Worker) → (w ≡ finished) ⊎ (w ≢ finished)
finished-cases finished = inl refl
finished-cases head = inr (λ q. cc)
finished-cases idle = inr (λ q. cc)
finished-cases (took m) = inr (λ q. cc)
finished-cases marking = inr (λ q. cc)
finished-cases stamping = inr (λ q. cc)
finished-cases crashed = inr (λ q. cc)

joining-Moves : (s : System) → IsPaced s → s.owner ≡ joining → Moves s
joining-Moves s v e = elim (finished-cases s.worker) [
  | inl f ↦ inl (s, closed, rw e (join f), λ q. cc)
  | inr n ↦ inr (worker_moves s s.worker v.running n (λ q. ground arith) (λ q. ground arith))
]

-- How many steps the worker has before it, once m_is_running is false.
abbrev pub rank : Worker → ℕ
rank idle = 5
rank (took m) = 4
rank marking = 3
rank stamping = 2
rank head = 1
rank finished = 0
rank crashed = 0

-- Runs of the system from a state, by the number of the worker's steps in them.
pub data Run (s : System) : ℕ → System → Type 0 where
  stay : Run s zero s
  worked :
      {n : ℕ} {t u : System} {a : Worker}
      → Run s n t
      → Work t t.worker u a
      → Run s (suc n) (record u { worker = a })
  called :
      {n : ℕ} {t u : System} {a : Caller} (i : ℕ)
      → Run s n t
      → Call i t (t.callers i) u a
      → Run s n (record u { callers = update t.callers i a })
  owned :
      {n : ℕ} {t u : System} {a : Owner}
      → Run s n t
      → Own t t.owner u a
      → Run s n (record u { owner = a })
  arrived :
      {n : ℕ} {t : System} → Run s n t → Run s n (record t { inbox = t.inbox ++ message ∷ [] })

-- The constructor and the destructor, while they wait for the worker, are never stuck: either the
-- wait is over, or the worker can take a step.
pub waiting-Moves : {s : System} → Reach s → (s.owner ≡ starting) ⊎ (s.owner ≡ joining) → Moves s
waiting-Moves {s} r (inl e) = starting-Moves s (Reach-Inv r).paced e
waiting-Moves {s} r (inr e) = joining-Moves s (Reach-Inv r).paced e

Work-rank :
    {s t : System} {a b : Worker}
    → s.is_running ≡ false
    → Work s a t b
    → (rank b < rank a) × (t.is_running ≡ false)
Work-rank h (go_on e) = cc
Work-rank h (finish e) = (omega arith, h)
Work-rank h (consume e) = (omega arith, h)
Work-rank h pass_on = (omega arith, h)
Work-rank h (clash e) = (omega arith, h)
Work-rank h (test e) = (omega arith, h)
Work-rank h mark = (omega arith, h)
Work-rank h stamp = (omega arith, h)

Call-kept :
    {i : ℕ} {s t : System} {a b : Caller}
    → Call i s a t b
    → (t.worker ≡ s.worker) × (t.is_running ≡ s.is_running)
Call-kept (enter h k) = (refl, refl)
Call-kept (refuse h) = (refl, refl)
Call-kept (pass h) = (refl, refl)
Call-kept send = (refl, refl)
Call-kept notify = (refl, refl)
Call-kept (see h) = (refl, refl)
Call-kept clear = (refl, refl)
Call-kept leave = (refl, refl)

Own-kept :
    {s t : System} {a b : Owner}
    → s.is_running ≡ false
    → Own s a t b
    → (t.worker ≡ s.worker) × (t.is_running ≡ false)
Own-kept e (nudge h) = (refl, e)
Own-kept e (started h) = (refl, e)
Own-kept e reset = (refl, e)
Own-kept e (close h) = (refl, refl)
Own-kept e wake = (refl, e)
Own-kept e (join h) = (refl, e)

Run-rank :
    {s t : System} {n : ℕ}
    → s.is_running ≡ false
    → Run s n t
    → (n + rank t.worker ≤ rank s.worker) × (t.is_running ≡ false)
Run-rank h stay = (omega arith, h)
Run-rank h (worked r x) =
    let (k, f) = Run-rank h r in let (l, g) = Work-rank f x in (omega arith, g)
Run-rank h (called i r x) = let (k, f) = Run-rank h r in let (w, g) = Call-kept x in (rw w k, g ∙ f)
Run-rank h (owned r x) = let (k, f) = Run-rank h r in let (w, g) = Own-kept f x in (rw w k, g)
Run-rank h (arrived r) = Run-rank h r

-- Once m_is_running is false, the worker takes five steps at most, whatever the other threads do
-- and however many messages still come in.
pub worker_stops : {s t : System} {n : ℕ} → s.is_running ≡ false → Run s n t → n ≤ 5
worker_stops {s} h r = ground (arith, Run-rank h r)
