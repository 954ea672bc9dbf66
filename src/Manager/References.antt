-- ===== src/Manager/References.antt =====
-- The entries of a manager against the counts of its broker, method by method.
use oregano.Base.{
  ℕ, String, ◌+◌, ◌≤◌, ◌<◌, ◌≡◌, ◌≢◌, ◌∙◌, refl, some, List, [], ◌∷◌, arith, ok, for_each,
}
use oregano.Dict.{find, put}
use oregano.Dict.Laws.{find-put, find-erase}
use oregano.Interfaces.{IMessageBroker}
use oregano.Interfaces.RefCounts.{RefCounts, one_at, size_mod}
use oregano.Manager.{
  MessageHandlerManager, SubscriptionType, event, transaction, other, Managed, announce, withdraw,
  without, push_new, sweep, remove_everywhere,
}
use oregano.Manager.Entries.{held, times, times-sweep}
use oregano.Manager.Cases.{add_cases, remove_cases}
use oregano.Manager.Requests.{Request, add, remove, remove_all, perform}
use oregano.Manager.WellFormed.{IsWellFormed}

-- The two named values of the enum.
abbrev pub IsNamed : SubscriptionType → Type 0
IsNamed (other n) = ⊥
IsNamed _ = Unit

-- One for a channel in which the manager has an entry, none otherwise.
abbrev pub entry : MessageHandlerManager → String → ℕ
entry m c = held c m.channel_subscriptions

module _ {C S : Type 0} (b : IMessageBroker C S) (l : RefCounts b) where
  -- The counts that a manager of the given type changes.
  abbrev pub refs : SubscriptionType → S → String → ℕ
  refs event s = l.channels s
  refs transaction s = l.queues s
  refs (other n) s = λ c. 0

  announce-refs :
      (t : SubscriptionType) (c : String) (s : S)
      → IsNamed t
      → l.IsValid s
      → refs t s c + 1 < size_mod
      → (j : String) → refs t (announce b t c s).1 j ≡ refs t s j + one_at c j
  unfolding announce
  announce-refs event c s n u h j = l.subscribe_counts c s u h j
  announce-refs transaction c s n u h j = l.listen_counts c s u h j
  announce-refs (other k) c s n u h j = absurd n

  withdraw-refs :
      (t : SubscriptionType) (c : String) (s : S)
      → IsNamed t
      → l.IsValid s
      → 1 ≤ refs t s c
      → (j : String) → refs t (withdraw b t c s).1 j + one_at c j ≡ refs t s j
  unfolding withdraw
  withdraw-refs event c s n u h j = l.unsubscribe_counts c s u h j
  withdraw-refs transaction c s n u h j = l.stop_listening_counts c s u h j
  withdraw-refs (other k) c s n u h j = absurd n

  withdraw-ok :
      (t : SubscriptionType) (c : String) (s : S) → IsNamed t → (withdraw b t c s).0 ≡ ok tt
  unfolding withdraw
  withdraw-ok event c s n = l.unsubscribe_returns c s
  withdraw-ok transaction c s n = l.stop_listening_returns c s
  withdraw-ok (other k) c s n = absurd n

  announce-IsValid :
      (t : SubscriptionType) (c : String) (s : S)
      → IsNamed t
      → l.IsValid s
      → refs t s c + 1 < size_mod
      → l.IsValid (announce b t c s).1
  unfolding announce
  announce-IsValid event c s n u h = l.subscribe-IsValid c s u h
  announce-IsValid transaction c s n u h = l.listen-IsValid c s u h
  announce-IsValid (other k) c s n u h = absurd n

  withdraw-IsValid :
      (t : SubscriptionType) (c : String) (s : S)
      → IsNamed t
      → l.IsValid s
      → 1 ≤ refs t s c
      → l.IsValid (withdraw b t c s).1
  unfolding withdraw
  withdraw-IsValid event c s n u h = l.unsubscribe-IsValid c s u h
  withdraw-IsValid transaction c s n u h = l.stop_listening-IsValid c s u h
  withdraw-IsValid (other k) c s n u h = absurd n

  -- The counts of another type stay.
  announce_others :
      (t t' : SubscriptionType) (c : String) (s : S)
      → IsNamed t
      → t ≢ t'
      → (j : String) → refs t' (announce b t c s).1 j ≡ refs t' s j
  unfolding announce
  announce_others event event c s n d j = absurd (d refl)
  announce_others event transaction c s n d j = l.subscribe_queues c s j
  announce_others event (other k) c s n d j = refl
  announce_others transaction event c s n d j = l.listen_channels c s j
  announce_others transaction transaction c s n d j = absurd (d refl)
  announce_others transaction (other k) c s n d j = refl
  announce_others (other i) t' c s n d j = absurd n

  withdraw_others :
      (t t' : SubscriptionType) (c : String) (s : S)
      → IsNamed t
      → t ≢ t'
      → (j : String) → refs t' (withdraw b t c s).1 j ≡ refs t' s j
  unfolding withdraw
  withdraw_others event event c s n d j = absurd (d refl)
  withdraw_others event transaction c s n d j = l.unsubscribe_queues c s j
  withdraw_others event (other k) c s n d j = refl
  withdraw_others transaction event c s n d j = l.stop_listening_channels c s j
  withdraw_others transaction transaction c s n d j = absurd (d refl)
  withdraw_others transaction (other k) c s n d j = refl
  withdraw_others (other i) t' c s n d j = absurd n

  withdraw_all_others :
      (t t' : SubscriptionType) (cs : List String) (s : S)
      → IsNamed t
      → t ≢ t'
      → (j : String) → refs t' (for_each (withdraw b t) cs s).1 j ≡ refs t' s j
  unfolding for_each
  withdraw_all_others t t' [] s n d j = refl
  withdraw_all_others t t' (c ∷ cs) s n d j =
      rw (withdraw-ok t c s n)
        (withdraw_all_others t t' cs _ n d j ∙ withdraw_others t t' c s n d j)

  -- Giving up a list of channels, of which the broker counts each often enough.
  withdraw_all_lem :
      (t : SubscriptionType) (cs : List String) (s : S)
      → IsNamed t
      → l.IsValid s
      → ((j : String) → times j cs ≤ refs t s j)
      → l.IsValid (for_each (withdraw b t) cs s).1
        × ((j : String) → refs t (for_each (withdraw b t) cs s).1 j + times j cs ≡ refs t s j)
  unfolding for_each times
  withdraw_all_lem t [] s n u h = (u, λ j. omega arith)
  withdraw_all_lem t (c ∷ cs) s n u h =
      let here : 1 ≤ refs t s c = ground (arith, h c) in
      let given = withdraw-refs t c s n u here in
      let rest =
        withdraw_all_lem t cs (withdraw b t c s).1 n (withdraw-IsValid t c s n u here)
          (λ j. ground (arith, h j, given j)) in
      rw (withdraw-ok t c s n) (rest.0, λ j. ground (arith, given j, rest.1 j))

  module _ (w : Managed S) (v : IsWellFormed w.manager) (n : IsNamed w.manager.subscription_type)
      (u : l.IsValid w.broker)
      (covered : (c : String) → entry w.manager c ≤ refs w.manager.subscription_type w.broker c)
      (room : (c : String) → refs w.manager.subscription_type w.broker c + 1 < size_mod) where
    open w.manager use {subscription_type as t, channel_subscriptions as subs}

    swept :
        (h : ℕ)
        → l.IsValid (for_each (withdraw b t) (sweep h subs).1 w.broker).1
          × ((j : String)
              → refs t (for_each (withdraw b t) (sweep h subs).1 w.broker).1 j
                  + times j (sweep h subs).1
                ≡ refs t w.broker j)
    unfolding held
    swept h =
        withdraw_all_lem t (sweep h subs).1 w.broker n u
          (λ i. omega (arith, times-sweep h i subs v.keys, covered i))

    held_here : (c : String) (xs : List ℕ) → find c subs ≡ some xs → 1 ≤ refs t w.broker c
    unfolding held
    held_here c xs e = ground (arith, covered c)

    -- A call changes the broker's counts by just as much as it changes the manager's entries,
    -- whether it returns or throws.
    pub perform-refs :
        (r : Request) (j : String)
        → refs t (perform b r w).1.broker j + entry w.manager j
          ≡ refs t w.broker j + entry (perform b r w).1.manager j
    unfolding perform held remove_everywhere
    perform-refs (add c h) j =
        add_cases b c h w
          (λ r. refs t r.1.broker j + entry w.manager j ≡ refs t w.broker j + entry r.1.manager j)
          (λ e. ground (
            arith,
            announce-refs t c w.broker n u (room c) j,
            find-put j c (h ∷ []) (put c [] subs),
            find-put j c [] subs,
          ))
          (λ xs e s. refl) (λ xs e s. ground (arith, find-put j c (push_new h xs) subs))
    perform-refs (remove c h) j =
        remove_cases b c h w
          (λ r. refs t r.1.broker j + entry w.manager j ≡ refs t w.broker j + entry r.1.manager j)
          (λ e. refl) (λ xs e s. ground (arith, find-put j c (without h xs) subs))
          (λ xs e s. ground (
            arith,
            withdraw-refs t c w.broker n u (held_here c xs e) j,
            find-erase j c subs v.keys,
          ))
    perform-refs (remove_all h) j = omega (arith, times-sweep h j subs v.keys, (swept h).1 j)

    pub perform-IsValid : (r : Request) → l.IsValid (perform b r w).1.broker
    unfolding perform remove_everywhere
    perform-IsValid (add c h) =
        add_cases b c h w (λ r. l.IsValid r.1.broker)
          (λ e. announce-IsValid t c w.broker n u (room c)) (λ xs e s. u) (λ xs e s. u)
    perform-IsValid (remove c h) =
        remove_cases b c h w (λ r. l.IsValid r.1.broker) (λ e. u) (λ xs e s. u)
          (λ xs e s. withdraw-IsValid t c w.broker n u (held_here c xs e))
    perform-IsValid (remove_all h) = (swept h).0

    -- A call leaves the counts of the other type alone.
    pub perform_others :
        (r : Request) (t' : SubscriptionType)
        → t ≢ t'
        → (j : String) → refs t' (perform b r w).1.broker j ≡ refs t' w.broker j
    unfolding perform remove_everywhere
    perform_others (add c h) t' d j =
        add_cases b c h w (λ r. refs t' r.1.broker j ≡ refs t' w.broker j)
          (λ e. announce_others t t' c w.broker n d j) (λ xs e s. refl) (λ xs e s. refl)
    perform_others (remove c h) t' d j =
        remove_cases b c h w (λ r. refs t' r.1.broker j ≡ refs t' w.broker j) (λ e. refl)
          (λ xs e s. refl) (λ xs e s. withdraw_others t t' c w.broker n d j)
    perform_others (remove_all h) t' d j = withdraw_all_others t t' (sweep h subs).1 w.broker n d j
