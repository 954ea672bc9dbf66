-- ===== src/Sharing/Blocked.antt =====
-- A queue on which the connector refuses to listen: MessageBroker::listen counts before it calls
-- the connector, and add_message_handler enters the handler before it calls the broker.
use oregano.Base.{
  ℕ, ◌+◌, ◌<◌, ◌≤◌, String, ◌≡◌, refl, ◌∙◌, ap, none, some, [], ◌∷◌, arith, Exception, err,
}
use oregano.Broker.{
  Brokered, ConnectorCallback, as_broker, count_at, increment, listen, with_queues, second_listener,
}
use oregano.Broker.Faults.{count_at-increment_self}
use oregano.Dict.{find, put}
use oregano.Dict.Laws.{put-put}
use oregano.Interfaces.{IMessageBrokerConnector}
use oregano.Interfaces.RefCounts.{size_mod}
use oregano.Manager.{
  Managed, MessageHandlerManager, transaction, on_broker, with_subscriptions, announce,
  add_message_handler, only_one_handler,
}
use oregano.Manager.Cases.{add_cases, find-put_self}

module _ {C K : Type 0} (c : IMessageBrokerConnector ConnectorCallback K) where
  -- the broker after a call that counted, with the connector as it was left
  abbrev pub counted : String → K → Brokered C K → Brokered C K
  counted queue k w = record (with_queues w (increment queue w.broker.queue_subscriptions)) {
    connector = k;
  }

  listen_fails :
      (queue : String) (x : Exception) (w : Brokered C K) (k : K)
      → count_at queue w.broker.queue_subscriptions ≡ 0
      → c.listen queue w.connector ≡ (err x, k)
      → listen c queue w ≡ (err x, counted queue k w)
  unfolding listen
  listen_fails queue x w k e f =
      ground (arith, count_at-increment_self queue w.broker.queue_subscriptions)

  pub listen_again :
      (queue : String) (w : Brokered C K)
      → 1 ≤ count_at queue w.broker.queue_subscriptions
      → count_at queue w.broker.queue_subscriptions + 1 < size_mod
      → listen c queue w ≡ (err second_listener, counted queue w.connector w)
  unfolding listen
  listen_again queue w pos few =
      ground (arith, count_at-increment_self queue w.broker.queue_subscriptions)

  module _ (queue : String) (h : ℕ) (w : Managed (Brokered C K)) where
    open w.manager use {subscription_type as t, channel_subscriptions as subs}

    -- The first handler of a queue, on a manager of transactions.
    pub add_first :
        t ≡ transaction
        → find queue subs ≡ none
        → add_message_handler (as_broker c) queue h w
          ≡ on_broker (listen c queue) (with_subscriptions w (put queue (h ∷ []) subs))
    unfolding announce as_broker
    add_first e free =
        add_cases (as_broker c) queue h w
          (λ r. r ≡ on_broker (listen c queue) (with_subscriptions w (put queue (h ∷ []) subs)))
          (λ _. rw (e, put-put) refl) (λ xs p s. cc) (λ xs p s. cc)

    -- Any further handler is refused.
    add_refused :
        t ≡ transaction
        → find queue subs ≡ some (h ∷ [])
        → add_message_handler (as_broker c) queue h w ≡ (err only_one_handler, w)
    add_refused e there =
        add_cases (as_broker c) queue h w (λ r. r ≡ (err only_one_handler, w)) (λ p. cc)
          (λ xs p s. refl) (λ xs p s. cc)

  module _ (queue : String) (h : ℕ) (w : Managed (Brokered C K)) where
    open w.manager use {subscription_type as t, channel_subscriptions as subs}

    -- The connector refuses the first listener of a queue with an exception: the caller gets it,
    -- but the queue counts as taken. The caller's second attempt is refused and changes nothing,
    -- and the first handler of another manager of transactions is refused by the broker, while the
    -- connector stays as the exception left it.
    pub queue_blocked :
        (x : Exception) (k : K) (m : MessageHandlerManager) (i : ℕ)
        → t ≡ transaction
        → find queue subs ≡ none
        → count_at queue w.broker.broker.queue_subscriptions ≡ 0
        → c.listen queue w.broker.connector ≡ (err x, k)
        → m.subscription_type ≡ transaction
        → find queue m.channel_subscriptions ≡ none
        → let failed = add_message_handler (as_broker c) queue h w in
          let other =
            add_message_handler
              (as_broker c)
              queue
              i
              (record { manager = m; broker = failed.1.broker }) in
          (failed.0 ≡ err x)
          × (failed.1.broker.connector ≡ k)
          × (add_message_handler (as_broker c) queue h failed.1 ≡ (err only_one_handler, failed.1))
          × (other.0 ≡ err second_listener)
          × (other.1.broker.connector ≡ k)
    queue_blocked x k m i e free uncounted f em freem =
        let new = w.broker.broker.queue_subscriptions in
        let again : Managed (Brokered C K) = record {
          manager = m;
          broker = counted queue k w.broker;
        } in
        let second =
          add_first queue i again em freem
          ∙ ap
              (λ r. (
                r.0,
                record (with_subscriptions again (put queue (i ∷ []) m.channel_subscriptions)) {
                  broker = r.1;
                },
              ))
              (listen_again queue again.broker ground (arith, count_at-increment_self queue new)
                ground (arith, count_at-increment_self queue new)) in
        rw (add_first queue h w e free, listen_fails queue x w.broker k uncounted f)
          (
            refl,
            refl,
            add_refused queue h _ e (find-put_self queue (h ∷ []) subs),
            ap (λ r. r.0) second,
            ap (λ r. r.1.broker.connector) second,
          )
