-- ===== src/Interfaces/Topics.antt =====
-- What a broker may rely on in a connector: it keeps a set of subscribed channels and a set of
-- queues, and a call that changes one of the sets changes it at its own name and returns. `IsTopic`
-- leaves out the names that the connector keeps for itself.
use oregano.Base.{String, Bool, true, false, ◌≡◌, ite, ok, String_discrete}
use oregano.Interfaces.{IMessageBrokerConnector}

pub record Topics {D K : Type 0} (c : IMessageBrokerConnector D K) : Type 1 where
  pub IsTopic : String → Type 0
  pub subscribed : K → String → Bool
  pub listened : K → String → Bool
  pub subscribe_topics :
      (t : String) (k : K) (j : String)
      → IsTopic j
      → subscribed (c.subscribe t k).1 j ≡ ite (String_discrete t j) true (subscribed k j)
  pub unsubscribe_topics :
      (t : String) (k : K) (j : String)
      → IsTopic j
      → subscribed (c.unsubscribe t k).1 j ≡ ite (String_discrete t j) false (subscribed k j)
  pub listen_topics :
      (t : String) (k : K) (j : String)
      → IsTopic j
      → listened (c.listen t k).1 j ≡ ite (String_discrete t j) true (listened k j)
  pub stop_listening_topics :
      (t : String) (k : K) (j : String)
      → IsTopic j
      → listened (c.stop_listening t k).1 j ≡ ite (String_discrete t j) false (listened k j)
  pub subscribe_listened :
      (t : String) (k : K) (j : String) → IsTopic j → listened (c.subscribe t k).1 j ≡ listened k j
  pub unsubscribe_listened :
      (t : String) (k : K) (j : String)
      → IsTopic j
      → listened (c.unsubscribe t k).1 j ≡ listened k j
  pub listen_subscribed :
      (t : String) (k : K) (j : String) → IsTopic j → subscribed (c.listen t k).1 j ≡ subscribed k j
  pub stop_listening_subscribed :
      (t : String) (k : K) (j : String)
      → IsTopic j
      → subscribed (c.stop_listening t k).1 j ≡ subscribed k j
  pub subscribe_returns : (t : String) (k : K) → (c.subscribe t k).0 ≡ ok tt
  pub unsubscribe_returns : (t : String) (k : K) → (c.unsubscribe t k).0 ≡ ok tt
  pub listen_returns : (t : String) (k : K) → (c.listen t k).0 ≡ ok tt
  pub stop_listening_returns : (t : String) (k : K) → (c.stop_listening t k).0 ≡ ok tt
