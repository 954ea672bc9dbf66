-- ===== src/Sharing/Refused.antt =====
-- A listener that is refused, as another interface of the process has the queue.
use oregano.Base.{ℕ, String, ◌≡◌, refl, ◌∙◌, none, [], ◌∷◌, arith, ok, err, Void, for_each}
use oregano.Broker.{
  MessageBroker, Brokered, ConnectorCallback, as_broker, count_at, listen, second_listener,
  call_back, call_transaction_callbacks,
}
use oregano.Broker.Faults.{count_at-increment_self}
use oregano.Connector.Answered.{for_each-all_handlers}
use oregano.Dict.{find, put}
use oregano.Interfaces.{IMessageBrokerConnector}
use oregano.Manager.{
  Managed, MessageHandlerManager, transaction, with_subscriptions, add_message_handler,
}
use oregano.Manager
use oregano.Manager.Cases.{find-put_self}
use oregano.Sharing.Blocked.{counted, listen_again, add_first}

module _ {C K : Type 0} (c : IMessageBrokerConnector ConnectorCallback K) where
  listens_first :
      (queue : String) (w : Brokered C K) (k : K)
      → count_at queue w.broker.queue_subscriptions ≡ 0
      → c.listen queue w.connector ≡ (ok tt, k)
      → listen c queue w ≡ (ok tt, counted c queue k w)
  unfolding listen
  listens_first queue w k e f =
      ground (arith, count_at-increment_self queue w.broker.queue_subscriptions)

  module _ (queue : String) (h i : ℕ) (w : Managed (Brokered C K)) (m : MessageHandlerManager)
      (k : K) where
    -- Two managers of transactions on one broker, and no listener of the queue yet: the first
    -- handler is taken, and the second one, of the other manager, is refused with an exception.
    -- Nevertheless a request on the queue calls both, the refused one after the other, unless
    -- that throws.
    pub refused_called :
        {W : Type 0} (invoke : ℕ → String → String → Void W)
        (b : MessageBroker MessageHandlerManager) (id id' text : String) (x : W)
        → w.manager.subscription_type ≡ transaction
        → find queue w.manager.channel_subscriptions ≡ none
        → m.subscription_type ≡ transaction
        → find queue m.channel_subscriptions ≡ none
        → count_at queue w.broker.broker.queue_subscriptions ≡ 0
        → c.listen queue w.broker.connector ≡ (ok tt, k)
        → let taken = add_message_handler (as_broker c) queue h w in
          let refused =
            add_message_handler
              (as_broker c)
              queue
              i
              (record { manager = m; broker = taken.1.broker }) in
          (taken.0 ≡ ok tt)
          × (refused.0 ≡ err second_listener)
          × (call_back
                (Manager.on_message invoke)
                call_transaction_callbacks
                (record b {
                  transaction_callbacks = (id, taken.1.manager) ∷ (id', refused.1.manager) ∷ [];
                })
                queue
                text
                x
              ≡ for_each (λ a. invoke a queue text) (h ∷ i ∷ []) x)
    unfolding call_back
    refused_called invoke b id id' text x e free em freem uncounted f =
        let new = w.broker.broker.queue_subscriptions in
        let again : Managed (Brokered C K) = record {
          manager = m;
          broker = counted c queue k w.broker;
        } in
        rw
          (
            add_first c queue h w e free,
            listens_first queue w.broker k uncounted f,
            add_first c queue i again em freem,
            listen_again c queue again.broker ground (arith, count_at-increment_self queue new)
                ground (arith, count_at-increment_self queue new),
          )
          (
            refl,
            refl,
            for_each-all_handlers invoke
                  ((
                    id,
                    record (w.manager) {
                      channel_subscriptions = put queue (h ∷ []) w.manager.channel_subscriptions;
                    },
                  )
                    ∷ (
                      id',
                      record m {
                        channel_subscriptions = put queue (i ∷ []) m.channel_subscriptions;
                      },
                    )
                    ∷ [])
                  queue text x
                ∙ rw
                    (
                      find-put_self queue (h ∷ []) w.manager.channel_subscriptions,
                      find-put_self queue (i ∷ []) m.channel_subscriptions,
                    )
                    refl,
          )
