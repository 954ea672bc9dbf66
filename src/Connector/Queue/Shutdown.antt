-- ===== src/Connector/Queue/Shutdown.antt =====
-- The end of the worker of the queues.
use oregano.Base.{
  ℕ, ◌+◌, ◌≤◌, ◌<◌, String, ◌≡◌, refl, true, false, zero, suc, arith, Bool-cases, Option-cases, ◌⊎◌,
  inl, inr,
}
use oregano.Connector.Redis.{RedisLists}
use oregano.Connector.Queue.{
  Place, head, refreshing, popping, popped, took, finished, joining, System, refresh, hand_over,
  Work, go_on, finish, test, pop, stamp, give, Other, nudge, started, listens, stops, close, wake,
  join, others, Reach,
}
use oregano.Connector.Queue.Invariant.{notified, Inv, Reach-Inv}
use oregano.Connector.Queue.Wakeup.{silent}

-- How many steps the worker has before it, once m_is_running is false.
abbrev pub rank : Place → ℕ
rank refreshing = 5
rank popping = 4
rank (popped q m) = 3
rank (took q m) = 2
rank head = 1
rank finished = 0

module _ {R : Type 0} (redis : RedisLists R) where
  open redis use {brpop, brpop_blocks}

  popping_moves :
      (s : System R)
      → Inv redis s
      → s.place ≡ popping
      → notified redis s ≡ true
      → (t : System R) × Work redis s t
  popping_moves s v p n = elim (Option-cases (brpop s.queues s.server)) [
    | inl e ↦ absurd ground (
      arith,
      silent redis s.state.technical_channel s.queues s.server (v.listening p)
          (brpop_blocks s.queues s.server e),
    )
    | inr (((q, m), r), e) ↦ (record s { place = popped q m; server = r }, pop p e)
  ]

  place_moves :
      (s : System R) (p : Place)
      → Inv redis s
      → s.place ≡ p
      → (p ≡ popping → notified redis s ≡ true)
      → (s.place ≡ finished) ⊎ ((t : System R) × Work redis s t)
  place_moves s head v e n = elim (Bool-cases s.is_running) [
    | inl r ↦ inr (record s { place = refreshing }, go_on e r)
    | inr r ↦ inr (record s { place = finished }, finish e r)
  ]
  place_moves s refreshing v e n = inr (refresh redis s, test e)
  place_moves s popping v e n = inr (popping_moves s v e (n refl))
  place_moves s (popped q m) v e n =
      inr (record s { place = took q m; queue_thread_alive = true }, stamp e)
  place_moves s (took q m) v e n = inr (hand_over redis q m s, give e)
  place_moves s finished v e n = inl e

  -- While the destructor waits for the worker, and wherever a wake-up is there for it, as in the
  -- constructor, the worker has finished or can take a step: no wait of the two is for ever.
  pub woken_moves :
      {technical_channel : String} {server : R} {s : System R}
      → Reach redis technical_channel server s
      → (s.owner ≡ joining) ⊎ (notified redis s ≡ true)
      → (s.place ≡ finished) ⊎ ((t : System R) × Work redis s t)
  woken_moves {s} r (inl o) =
      let v = Reach-Inv redis r in place_moves s s.place v refl (λ p. v.woken (rw p refl) o)
  woken_moves {s} r (inr n) = place_moves s s.place (Reach-Inv redis r) refl (λ p. n)

  -- Runs of the system from a state, by the number of the worker's steps in them.
  pub data Run (s : System R) : ℕ → System R → Type 0 where
    stay : Run s zero s
    worked : {n : ℕ} {t u : System R} → Run s n t → Work redis t u → Run s (suc n) u
    aside : {n : ℕ} {t u : System R} → Run s n t → Other redis t u → Run s n u

  Work-rank :
      {s t : System R}
      → s.is_running ≡ false
      → Work redis s t
      → (rank t.place < rank s.place) × (t.is_running ≡ false)
  unfolding refresh hand_over
  Work-rank h (go_on p e) = cc
  Work-rank h (finish p e) = (rw p (omega arith), h)
  Work-rank {s} h (test p) = ground arith
  Work-rank h (pop p e) = (rw p (omega arith), h)
  Work-rank h (stamp p) = (rw p (omega arith), h)
  Work-rank {s} h (give {q} p) = ground arith

  Other-kept :
      {s t : System R}
      → s.is_running ≡ false
      → Other redis s t
      → (t.place ≡ s.place) × (t.is_running ≡ false)
  Other-kept h (nudge o e) = (refl, h)
  Other-kept h (started o e) = (refl, h)
  Other-kept h (listens q o) = (refl, h)
  Other-kept h (stops q o n) = (refl, h)
  Other-kept h (close o) = (refl, refl)
  Other-kept h (wake o) = (refl, h)
  Other-kept h (join o p) = (refl, h)
  Other-kept h (others e) = (refl, h)

  Run-rank :
      {s t : System R} {n : ℕ}
      → s.is_running ≡ false
      → Run s n t
      → (n + rank t.place ≤ rank s.place) × (t.is_running ≡ false)
  Run-rank h stay = (omega arith, h)
  Run-rank h (worked r x) =
      let (k, f) = Run-rank h r in let (l, g) = Work-rank f x in (omega arith, g)
  Run-rank h (aside r x) = let (k, f) = Run-rank h r in let (p, g) = Other-kept f x in (rw p k, g)

  -- Once m_is_running is false, the worker takes five steps at most, whatever the other threads and
  -- the other clients do.
  pub queue_worker_stops : {s t : System R} {n : ℕ} → s.is_running ≡ false → Run s n t → n ≤ 5
  queue_worker_stops h r = ground (arith, Run-rank h r)
