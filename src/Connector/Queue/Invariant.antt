-- ===== src/Connector/Queue/Invariant.antt =====
-- What holds of the worker of the queues and of the list that wakes it up.
use oregano.Base.{
  String, ◌≡◌, refl, Bool, true, false, List, [], ◌∷◌, ◌++◌, String_discrete, arith, is_empty,
  Bool-cases, inl, inr, not, if_neg, if_pos,
}
use oregano.Connector.Redis.{RedisLists}
use oregano.Connector.Queue.First.{StartsWith, StartsWith-append, StartsWith-remove}
use oregano.Connector.Queue.{
  QueueState, create, notify_queue_subscription_change, listen, stop_listening, head, refreshing,
  Place, popping, finished, Owner, starting, opened, joining, System, refresh, hand_over, Work,
  go_on, finish, test, pop, stamp, give, Other, nudge, started, listens, stops, close, wake, join,
  others, Step, work, other, Reach, start, later,
}

is_empty-append : (xs : List String) (m : String) → is_empty (xs ++ m ∷ []) ≡ false
is_empty-append [] m = refl
is_empty-append (x ∷ xs) m = refl

-- Past the test of m_is_running and not past BRPOP.
abbrev pub is_on_the_way : Place → Bool
is_on_the_way refreshing = true
is_on_the_way popping = true
is_on_the_way _ = false

abbrev pub is_up : Owner → Bool
is_up starting = true
is_up opened = true
is_up _ = false

module _ {R : Type 0} (redis : RedisLists R) where
  open redis use {lists, lists-rpush, brpop, brpop_blocks, brpop_takes}

  -- Whether the worker has a wake-up to find.
  abbrev pub notified : System R → Bool
  notified s = not (is_empty (lists s.server s.state.technical_channel))

  -- The worker's copy is the list of subscriptions, unless a change is noted. Where the worker is
  -- to see something that it has not seen before it pops, it has been left something to pop: a
  -- change, or the end.
  pub record Inv (s : System R) : Type 0 where
    pub first : StartsWith s.state.technical_channel s.state.queue_subscriptions
    pub copied :
        s.state.queue_subscriptions_changed ≡ false → s.queues ≡ s.state.queue_subscriptions
    pub awake : s.place ≡ popping → s.state.queue_subscriptions_changed ≡ true → notified s ≡ true
    pub woken : is_on_the_way s.place ≡ true → s.owner ≡ joining → notified s ≡ true
    pub listening : s.place ≡ popping → StartsWith s.state.technical_channel s.queues
    pub up : is_up s.owner ≡ s.is_running
    pub ended : s.place ≡ finished → s.is_running ≡ false

  notify-notified :
      (s : QueueState) (r : R)
      → is_empty (lists (notify_queue_subscription_change redis s r) s.technical_channel) ≡ false
  unfolding notify_queue_subscription_change
  notify-notified s r = ground (
    arith,
    lists-rpush s.technical_channel "" r s.technical_channel,
    is_empty-append (lists r s.technical_channel) "",
  )

  -- A worker that leaves the way to BRPOP, or stands elsewhere.
  away :
      (s : System R)
      → Inv s
      → (b : Place) (r : R) (h : List (String × String)) (a : Bool) → is_on_the_way b ≡ false
      → (b ≡ finished → s.is_running ≡ false)
      → Inv (record s { place = b; server = r; handed = h; queue_thread_alive = a })
  away s v b r h a o f = record {
    first = v.first;
    copied = v.copied;
    awake = λ q. cc;
    woken = λ q. cc;
    listening = λ q. cc;
    up = v.up;
    ended = f;
  }

  Work-Inv : {s t : System R} → Work redis s t → Inv s → Inv t
  unfolding refresh hand_over
  Work-Inv (go_on p e) v = record {
    first = v.first;
    copied = v.copied;
    awake = λ q. cc;
    woken = λ q o. ground arith;
    listening = λ q. cc;
    up = v.up;
    ended = λ q. cc;
  }
  Work-Inv {s} (finish p e) v = away s v _ s.server s.handed s.queue_thread_alive refl (λ q. e)
  Work-Inv {s} (test p) v = elim (Bool-cases s.state.queue_subscriptions_changed) [
    | inl e ↦ rw e record {
      first = v.first;
      copied = λ f. refl;
      awake = λ q f. cc;
      woken = λ q. v.woken (rw p refl);
      listening = λ q. v.first;
      up = v.up;
      ended = λ q. cc;
    }
    | inr e ↦ rw e record {
      first = v.first;
      copied = λ f. v.copied e;
      awake = λ q f. cc;
      woken = λ q. v.woken (rw p refl);
      listening = λ q. rw (v.copied e) v.first;
      up = v.up;
      ended = λ q. cc;
    }
  ]
  Work-Inv {s} (pop p e) v = away s v _ _ s.handed s.queue_thread_alive refl (λ q. cc)
  Work-Inv {s} (stamp p) v = away s v _ s.server s.handed true refl (λ q. cc)
  Work-Inv {s} (give {q} {m} p) v = elim (String_discrete q s.state.technical_channel) [
    | yes d ↦ rw (if_pos _ d) (away s v head s.server s.handed s.queue_thread_alive refl (λ q. cc))
    | no d ↦ rw (if_neg _ d) (away s v head s.server _ s.queue_thread_alive refl (λ q. cc))
  ]

  Other-Inv : {s t : System R} → Other redis s t → Inv s → Inv t
  unfolding listen stop_listening
  Other-Inv (nudge o e) v = record {
    first = v.first;
    copied = v.copied;
    awake = λ p f. rw notify-notified;
    woken = λ p f. rw notify-notified;
    listening = v.listening;
    up = v.up;
    ended = v.ended;
  }
  Other-Inv (started o e) v = record {
    first = v.first;
    copied = v.copied;
    awake = v.awake;
    woken = λ p. cc;
    listening = v.listening;
    up = ground arith;
    ended = v.ended;
  }
  Other-Inv {s} (listens q o) v = record {
    first = StartsWith-append s.state.technical_channel q s.state.queue_subscriptions v.first;
    copied = λ e. cc;
    awake = λ e f. rw notify-notified;
    woken = λ e f. rw notify-notified;
    listening = v.listening;
    up = v.up;
    ended = v.ended;
  }
  Other-Inv {s} (stops q o n) v = record {
    first = StartsWith-remove s.state.technical_channel q s.state.queue_subscriptions n v.first;
    copied = λ e. cc;
    awake = λ e f. rw notify-notified;
    woken = λ e f. rw notify-notified;
    listening = v.listening;
    up = v.up;
    ended = v.ended;
  }
  Other-Inv (close o) v = record {
    first = v.first;
    copied = v.copied;
    awake = v.awake;
    woken = λ p. cc;
    listening = v.listening;
    up = refl;
    ended = λ p. refl;
  }
  Other-Inv (wake o) v = record {
    first = v.first;
    copied = v.copied;
    awake = λ p f. rw notify-notified;
    woken = λ p f. rw notify-notified;
    listening = v.listening;
    up = ground arith;
    ended = v.ended;
  }
  Other-Inv (join o p) v = record {
    first = v.first;
    copied = v.copied;
    awake = v.awake;
    woken = λ q. cc;
    listening = v.listening;
    up = ground arith;
    ended = v.ended;
  }
  Other-Inv (others e) v = record {
    first = v.first;
    copied = v.copied;
    awake = λ p f. rw e (v.awake p f);
    woken = λ p f. rw e (v.woken p f);
    listening = v.listening;
    up = v.up;
    ended = v.ended;
  }

  Step-Inv : {s t : System R} → Step redis s t → Inv s → Inv t
  Step-Inv (work x) v = Work-Inv x v
  Step-Inv (other x) v = Other-Inv x v

  module _ {technical_channel : String} {server : R} where
    pub Reach-Inv : {s : System R} → Reach redis technical_channel server s → Inv s
    unfolding create
    Reach-Inv start = record {
      first = refl;
      copied = λ e. cc;
      awake = λ e f. cc;
      woken = λ e f. cc;
      listening = λ e. cc;
      up = refl;
      ended = λ e. cc;
    }
    Reach-Inv (later r x) = Step-Inv x (Reach-Inv r)
