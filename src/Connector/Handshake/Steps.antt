-- ===== src/Connector/Handshake/Steps.antt =====
-- The invariant of the handshake, step by step.
use oregano.Base.{ℕ, ◌≡◌, refl, Bool, true, false, Option, none, some, [], ◌∷◌, ◌++◌, arith}
use oregano.Connector.Handshake.{
  confirmation, message, Worker, Owner, Caller, outside, clearing, update, System, Call, enter,
  refuse, pass, send, notify, see, clear, leave, Work, go_on, finish, consume, pass_on, clash, test,
  mark, stamp, Own, nudge, started, reset, close, wake, join, Step, locked, leaving, init, call,
  work, own, arrive, Reach, start, later,
}
use oregano.Connector.Handshake.Invariant.{
  is_inside, confirmations-append, is_empty-append, is_next_confirmation-append, IsExclusive,
  IsPaced, Inv, owed-le-one,
}

module _ (s : System) (v : IsPaced s) where
  arrive-IsPaced : IsPaced (record s { inbox = s.inbox ++ message ∷ [] })
  arrive-IsPaced = ground (
    arith,
    confirmations-append s.inbox message,
    is_next_confirmation-append s.inbox message,
    is_empty-append s.inbox message,
  )

  Work-IsPaced :
      {t : System} {a b : Worker} → s.worker ≡ a → Work s a t b → IsPaced (record t { worker = b })
  Work-IsPaced e (go_on h) = ground arith
  Work-IsPaced e (finish h) = ground arith
  Work-IsPaced e (consume h) = ground arith
  Work-IsPaced e pass_on = ground arith
  Work-IsPaced e (clash h) = ground (arith, owed-le-one s.subscription_lock s.callers)
  Work-IsPaced e (test h) = ground arith
  Work-IsPaced e mark = ground (arith, owed-le-one s.subscription_lock s.callers)
  Work-IsPaced e stamp = ground arith

  Own-IsPaced :
      {t : System} {a b : Owner} → s.owner ≡ a → Own s a t b → IsPaced (record t { owner = b })
  Own-IsPaced e (nudge h) = rw⁻¹ e arrive-IsPaced
  Own-IsPaced e (started h) = ground arith
  Own-IsPaced e reset = ground arith
  Own-IsPaced e (close h) = ground arith
  Own-IsPaced e wake =
      ground (arith, confirmations-append s.inbox message, is_empty-append s.inbox message)
  Own-IsPaced e (join h) = ground arith

module _ (s : System)
    (x : IsExclusive s.subscription_status_changed s.subscription_lock s.callers) where
  Call-IsPaced :
      (i : ℕ) {t : System} {a b : Caller}
      → IsPaced s
      → s.callers i ≡ a
      → Call i s a t b
      → IsPaced (record t { callers = update s.callers i b })
  Call-IsPaced i v e (enter h k) = ground arith
  Call-IsPaced i v e (refuse h) = absurd ground (arith, x.inside i)
  Call-IsPaced i v e (pass h) = ground (arith, x.inside i)
  Call-IsPaced i v e send = ground (
    arith,
    x.inside i,
    confirmations-append s.inbox confirmation,
    is_empty-append s.inbox confirmation,
  )
  Call-IsPaced i v e notify =
      ground
        (arith, x.inside i, confirmations-append s.inbox message, is_empty-append s.inbox message)
  Call-IsPaced i v e (see h) = ground (arith, x.inside i)
  Call-IsPaced i v e clear = ground (arith, x.inside i, x.seen i)
  Call-IsPaced i v e leave = ground (arith, x.inside i)

module _ (flag : Bool) (lock : Option ℕ) (callers : ℕ → Caller)
    (x : IsExclusive flag lock callers) where
  -- A caller that goes from one place inside to another.
  moved :
      (i : ℕ) {a : Caller} (b : Caller)
      → callers i ≡ a
      → is_inside a ≡ true
      → is_inside b ≡ true
      → (b ≡ clearing → flag ≡ true)
      → IsExclusive flag lock (update callers i b)
  moved i b e h k c = record {
    inside = λ j q. ground (arith, x.inside j, x.inside i);
    seen = λ j q. ground (arith, x.seen j, c);
    unrefused = λ j q. ground (arith, x.unrefused j);
  }

  entered : (i : ℕ) → lock ≡ none → IsExclusive flag (some i) (update callers i locked)
  entered i h = record {
    inside = λ j q. ground (arith, x.inside j);
    seen = λ j q. ground (arith, x.seen j);
    unrefused = λ j q. ground (arith, x.unrefused j);
  }

  -- Only the holder of the lock can stand before the reset of the flag.
  cleared : (i : ℕ) → callers i ≡ clearing → IsExclusive false lock (update callers i leaving)
  cleared i e = record {
    inside = λ j q. ground (arith, x.inside j, x.inside i);
    seen = λ j q. ground (arith, x.inside i, x.inside j);
    unrefused = λ j q. ground (arith, x.unrefused j);
  }

  left : (i : ℕ) → callers i ≡ leaving → IsExclusive flag none (update callers i outside)
  left i e = record {
    inside = λ j q. ground (arith, x.inside j, x.inside i);
    seen = λ j q. ground (arith, x.seen j);
    unrefused = λ j q. ground (arith, x.unrefused j);
  }

  free_flag : (f : Bool) → lock ≡ none → IsExclusive f lock callers
  free_flag f h = record {
    inside = x.inside;
    seen = λ j q. ground (arith, x.inside j);
    unrefused = x.unrefused;
  }

  set_flag : IsExclusive true lock callers
  set_flag = record { inside = x.inside; seen = λ j q. refl; unrefused = x.unrefused }

module _ (s : System) (v : Inv s) where
  Call-IsExclusive :
      (i : ℕ) {t : System} {a b : Caller}
      → s.callers i ≡ a
      → Call i s a t b
      → IsExclusive t.subscription_status_changed t.subscription_lock (update s.callers i b)
  Call-IsExclusive i e (enter h k) = entered _ _ _ v.exclusive i k
  Call-IsExclusive i e (refuse h) = absurd ground (arith, v.exclusive.inside i)
  Call-IsExclusive i e (pass h) = moved _ _ _ v.exclusive i _ e refl refl (λ q. cc)
  Call-IsExclusive i e send = moved _ _ _ v.exclusive i _ e refl refl (λ q. cc)
  Call-IsExclusive i e notify = moved _ _ _ v.exclusive i _ e refl refl (λ q. cc)
  Call-IsExclusive i e (see h) = moved _ _ _ v.exclusive i _ e refl refl (λ q. h)
  Call-IsExclusive i e clear = cleared _ _ _ v.exclusive i e
  Call-IsExclusive i e leave = left _ _ _ v.exclusive i e

  Work-IsExclusive :
      {t : System} {a b : Worker}
      → Work s a t b
      → IsExclusive t.subscription_status_changed t.subscription_lock t.callers
  Work-IsExclusive mark = set_flag _ _ _ v.exclusive
  Work-IsExclusive (go_on h) = v.exclusive
  Work-IsExclusive (finish h) = v.exclusive
  Work-IsExclusive (consume h) = v.exclusive
  Work-IsExclusive pass_on = v.exclusive
  Work-IsExclusive (clash h) = v.exclusive
  Work-IsExclusive (test h) = v.exclusive
  Work-IsExclusive stamp = v.exclusive

  Own-IsExclusive :
      {t : System} {a b : Owner}
      → s.owner ≡ a
      → Own s a t b
      → IsExclusive t.subscription_status_changed t.subscription_lock t.callers
  Own-IsExclusive e reset = free_flag _ _ _ v.exclusive false ground arith
  Own-IsExclusive e (nudge h) = v.exclusive
  Own-IsExclusive e (started h) = v.exclusive
  Own-IsExclusive e (close h) = v.exclusive
  Own-IsExclusive e wake = v.exclusive
  Own-IsExclusive e (join h) = v.exclusive

Step-Inv : {s t : System} → Step s t → Inv s → Inv t
Step-Inv {s} (call i x) v = record {
  exclusive = Call-IsExclusive s v i refl x;
  paced = Call-IsPaced s v.exclusive i v.paced refl x;
}
Step-Inv {s} (work x) v = record {
  exclusive = Work-IsExclusive s v x;
  paced = Work-IsPaced s v.paced refl x;
}
Step-Inv {s} (own x) v = record {
  exclusive = Own-IsExclusive s v refl x;
  paced = Own-IsPaced s v.paced refl x;
}
Step-Inv {s} arrive v = record { exclusive = v.exclusive; paced = arrive-IsPaced s v.paced }

init-IsPaced : IsPaced init
init-IsPaced = ground arith

pub Reach-Inv : {s : System} → Reach s → Inv s
Reach-Inv start = record {
  exclusive = record { inside = λ i q. cc; seen = λ i q. cc; unrefused = λ i q. cc };
  paced = init-IsPaced;
}
Reach-Inv (later r x) = Step-Inv x (Reach-Inv r)
