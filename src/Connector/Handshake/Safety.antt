-- ===== src/Connector/Handshake/Safety.antt =====
-- The exceptions that demand mutual exclusion, and the wait for the confirmation.
use oregano.Base.{
  ℕ, ◌+◌, ◌≡◌, ◌≢◌, refl, true, false, List, [], ◌∷◌, arith, Bool-cases, ◌⊎◌, inl, inr, is_empty,
}
use oregano.Connector.Handshake.{
  Item, confirmation, message, Worker, head, idle, took, marking, stamping, finished, crashed,
  spinning, clearing, threw, System, Work, go_on, finish, consume, pass_on, test, mark, stamp,
  Reach,
}
use oregano.Connector.Handshake.Invariant.{confirmations, held, owed-le-one}
use oregano.Connector.Handshake.Steps.{Reach-Inv}

idle_moves :
    (s : System) (ms : List Item)
    → s.inbox ≡ ms
    → is_empty ms ≡ false
    → (t : System) × (a : Worker) × Work s idle t a
idle_moves s [] e h = cc
idle_moves s (m ∷ ms) e h = (record s { inbox = ms }, took m, consume e)

-- The worker is blocked only in `consume`, on a connection that brings nothing.
pub worker_moves :
    (s : System) (w : Worker)
    → w ≢ crashed
    → w ≢ finished
    → (w ≡ idle → is_empty s.inbox ≡ false)
    → (held w ≡ 1 → s.subscription_status_changed ≡ false)
    → (t : System) × (a : Worker) × Work s w t a
worker_moves s head n m h f = elim (Bool-cases s.is_running) [
  | inl e ↦ (s, idle, go_on e)
  | inr e ↦ (s, finished, finish e)
]
worker_moves s idle n m h f = idle_moves s s.inbox refl (h refl)
worker_moves s (took message) n m h f = (s, stamping, pass_on)
worker_moves s (took confirmation) n m h f = (s, marking, test (f refl))
worker_moves s marking n m h f = (record s { subscription_status_changed = true }, stamping, mark)
worker_moves s stamping n m h f = (record s { subscriber_thread_alive = true }, head, stamp)
worker_moves s finished n m h f = absurd (m refl)
worker_moves s crashed n m h f = absurd (n refl)

module _ {s : System} (r : Reach s) where
  -- From the constructor to the destructor, and however many threads call the two methods: none is
  -- ever refused with the exception that demands mutual exclusion, and the worker never ends the
  -- program with its own.
  pub never_clashes : (i : ℕ) → (s.callers i ≢ threw) × (s.worker ≢ crashed)
  never_clashes i = ((Reach-Inv r).exclusive.unrefused i, (Reach-Inv r).paced.running)

  -- A thread that has seen the flag has seen its own confirmation: none is on its way any more, on
  -- the connection or in the worker's hands, that could set the flag for the next thread.
  pub own_confirmation :
      (i : ℕ) → s.callers i ≡ clearing → (confirmations s.inbox ≡ 0) × (held s.worker ≡ 0)
  own_confirmation i e =
      let v = Reach-Inv r in
      let p = v.paced in
      ground
        (arith, v.exclusive.seen i, v.exclusive.inside i, owed-le-one s.subscription_lock s.callers)

  awaited :
      (i : ℕ)
      → s.callers i ≡ spinning
      → s.subscription_status_changed ≡ false
      → confirmations s.inbox + held s.worker ≡ 1
  awaited i e f = let v = Reach-Inv r in let p = v.paced in ground (arith, v.exclusive.inside i)

  -- A thread that waits for the flag is not stuck, where the callbacks of the worker call neither of
  -- the two methods: the flag is set, or one confirmation is on its way and the worker can take a
  -- step. A callback that calls one is the subject of Reentry.
  pub spinning_ends :
      (i : ℕ)
      → s.callers i ≡ spinning
      → (s.subscription_status_changed ≡ true)
        ⊎ (confirmations s.inbox + held s.worker ≡ 1)
          × ((t : System) × (a : Worker) × Work s s.worker t a)
  spinning_ends i e = elim (Bool-cases s.subscription_status_changed) [
    | inl f ↦ inl f
    | inr f ↦
        let v = Reach-Inv r in
        let p = v.paced in
        let one = awaited i e f in
        inr (
          one,
          worker_moves s (s.worker) p.running (λ q. ground (arith, v.exclusive.inside i))
              (λ q. ground arith) (λ q. f),
        )
  ]
