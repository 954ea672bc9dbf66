-- ===== src/Sharing/Retry.antt =====
-- A subscription that the connector refuses: MessageBroker::subscribe counts before it calls the
-- connector, and add_message_handler enters the handler before it calls the broker.
use oregano.Base.{
  ℕ, ◌+◌, ◌<◌, ◌≤◌, String, ◌≡◌, refl, ◌∙◌, ap, none, some, [], ◌∷◌, arith, Exception, ok, err,
}
use oregano.Broker.{
  Brokered, ConnectorCallback, as_broker, count_at, increment, subscribe, with_channels,
}
use oregano.Broker.Faults.{count_at-increment_self}
use oregano.Dict.{find, put}
use oregano.Dict.Laws.{put-put}
use oregano.Interfaces.{IMessageBrokerConnector}
use oregano.Interfaces.RefCounts.{size_mod}
use oregano.Manager.{
  Managed, MessageHandlerManager, event, on_broker, with_subscriptions, announce, contains,
  push_new, add_message_handler,
}
use oregano.Manager.Cases.{add_cases, find-put_self}

module _ {C K : Type 0} (c : IMessageBrokerConnector ConnectorCallback K) where
  -- the broker after a call that counted, with the connector as it was left
  abbrev counted : String → K → Brokered C K → Brokered C K
  counted channel k w =
      record (with_channels w (increment channel w.broker.channel_subscriptions)) { connector = k }

  subscribe_fails :
      (channel : String) (x : Exception) (w : Brokered C K) (k : K)
      → count_at channel w.broker.channel_subscriptions ≡ 0
      → c.subscribe channel w.connector ≡ (err x, k)
      → subscribe c channel w ≡ (err x, counted channel k w)
  unfolding subscribe
  subscribe_fails channel x w k e f =
      ground (arith, count_at-increment_self channel w.broker.channel_subscriptions)

  -- A later subscriber only counts.
  subscribe_again :
      (channel : String) (w : Brokered C K)
      → 1 ≤ count_at channel w.broker.channel_subscriptions
      → count_at channel w.broker.channel_subscriptions + 1 < size_mod
      → subscribe c channel w ≡ (ok tt, counted channel w.connector w)
  unfolding subscribe
  subscribe_again channel w pos few =
      ground (arith, count_at-increment_self channel w.broker.channel_subscriptions)

  module _ (channel : String) (h : ℕ) (w : Managed (Brokered C K)) where
    open w.manager use {subscription_type as t, channel_subscriptions as subs}

    -- The first handler of a channel, on a manager of events.
    add_first :
        t ≡ event
        → find channel subs ≡ none
        → add_message_handler (as_broker c) channel h w
          ≡ on_broker (subscribe c channel) (with_subscriptions w (put channel (h ∷ []) subs))
    unfolding announce as_broker
    add_first e free =
        add_cases (as_broker c) channel h w
          (λ r.
            r ≡ on_broker (subscribe c channel) (with_subscriptions w (put channel (h ∷ []) subs)))
          (λ _. rw (e, put-put) refl) (λ xs p s. cc) (λ xs p s. cc)

    -- The handler is there, so nobody asks the broker.
    add_same :
        t ≡ event
        → find channel subs ≡ some (h ∷ [])
        → add_message_handler (as_broker c) channel h w
          ≡ (ok tt, with_subscriptions w (put channel (h ∷ []) subs))
    unfolding push_new contains
    add_same e there =
        add_cases (as_broker c) channel h w
          (λ r. r ≡ (ok tt, with_subscriptions w (put channel (h ∷ []) subs))) (λ p. cc)
          (λ xs p s. cc) (λ xs p s. ground arith)

    -- The broker has counted a subscription of the channel already.
    joins :
        t ≡ event
        → find channel subs ≡ none
        → 1 ≤ count_at channel w.broker.broker.channel_subscriptions
        → count_at channel w.broker.broker.channel_subscriptions + 1 < size_mod
        → add_message_handler (as_broker c) channel h w ≡ (
          ok tt,
          record (with_subscriptions w (put channel (h ∷ []) subs)) {
            broker = counted channel w.broker.connector w.broker;
          },
        )
    joins e free pos few = add_first e free ∙ rw (subscribe_again channel w.broker pos few) refl

    after_failure :
        (x : Exception) (k : K)
        → t ≡ event
        → find channel subs ≡ none
        → count_at channel w.broker.broker.channel_subscriptions ≡ 0
        → c.subscribe channel w.broker.connector ≡ (err x, k)
        → add_message_handler (as_broker c) channel h w ≡ (
          err x,
          record (with_subscriptions w (put channel (h ∷ []) subs)) {
            broker = counted channel k w.broker;
          },
        )
    after_failure x k e free uncounted f =
        add_first e free ∙ rw (subscribe_fails channel x w.broker k uncounted f) refl

  module _ (channel : String) (h : ℕ) (w : Managed (Brokered C K)) where
    open w.manager use {subscription_type as t, channel_subscriptions as subs}

    -- The connector refuses the first subscription of a channel with an exception: the caller gets
    -- it, but no later call makes up for it. The caller's second attempt returns and changes
    -- nothing, and the first handler of another manager of events is entered and counted, while the
    -- connector stays as the exception left it.
    pub subscription_never_retried :
        (x : Exception) (k : K) (m : MessageHandlerManager) (i : ℕ)
        → t ≡ event
        → find channel subs ≡ none
        → count_at channel w.broker.broker.channel_subscriptions ≡ 0
        → c.subscribe channel w.broker.connector ≡ (err x, k)
        → m.subscription_type ≡ event
        → find channel m.channel_subscriptions ≡ none
        → let refused = add_message_handler (as_broker c) channel h w in
          let joined =
            add_message_handler
              (as_broker c)
              channel
              i
              (record { manager = m; broker = refused.1.broker }) in
          (refused.0 ≡ err x)
          × (refused.1.broker.connector ≡ k)
          × (add_message_handler (as_broker c) channel h refused.1 ≡ (ok tt, refused.1))
          × (joined.0 ≡ ok tt)
          × (joined.1.broker.connector ≡ k)
    subscription_never_retried x k m i e free uncounted f em freem =
        let again : Managed (Brokered C K) = record {
          manager = m;
          broker = counted channel k w.broker;
        } in
        let second =
          joins channel i again em freem ground
            (arith, count_at-increment_self channel w.broker.broker.channel_subscriptions) ground
            (arith, count_at-increment_self channel w.broker.broker.channel_subscriptions) in
        rw (after_failure channel h w x k e free uncounted f) (
          refl,
          refl,
          add_same channel h _ e (find-put_self channel (h ∷ []) subs)
              ∙ rw (put-put channel (h ∷ []) (h ∷ []) subs) refl,
          ap (λ r. r.0) second,
          ap (λ r. r.1.broker.connector) second,
        )
