-- ===== src/Interfaces.antt =====
-- The abstract classes between the layers: IMessageBroker.h and IMessageBrokerConnector.h. Each
-- operation acts on a state of the implementation's own, and may throw.
pub mod RefCounts
pub mod Topics
use oregano.Base.{String, Exec, Void}

-- `C` is the type of callbacks (`on_message_callback`). The extra text that a registration takes is
-- the value that `sole::uuid4().base62()` draws in it.
pub record IMessageBroker (C S : Type 0) : Type 0 where
  pub publish : String → String → Void S
  pub subscribe : String → Void S
  pub unsubscribe : String → Void S
  pub register_event_callback : String → C → Exec S String
  pub remove_event_callback : String → Void S
  pub send_request : String → String → Void S
  pub listen : String → Void S
  pub stop_listening : String → Void S
  pub register_transaction_callback : String → C → Exec S String
  pub remove_transaction_callback : String → Void S

-- `D` is the type of the callbacks (`callback_t`) that the connector holds.
pub record IMessageBrokerConnector (D K : Type 0) : Type 0 where
  pub set_on_subscriber_callback : D → Void K
  pub set_on_queue_callback : D → Void K
  pub publish : String → String → Void K
  pub subscribe : String → Void K
  pub unsubscribe : String → Void K
  pub send_request : String → String → Void K
  pub listen : String → Void K
  pub stop_listening : String → Void K
