-- ===== src/Manager/Requests.antt =====
-- Histories of a manager: calls of its methods, whatever they return or throw.
use oregano.Base.{ℕ, String, List, [], ◌∷◌, Void}
use oregano.Interfaces.{IMessageBroker}
use oregano.Manager.{Managed, add_message_handler, remove_message_handler, remove_everywhere}

pub data Request : Type 0 where
  add : String → ℕ → Request
  remove : String → ℕ → Request
  remove_all : ℕ → Request

module _ {C S : Type 0} (b : IMessageBroker C S) where
  unfoldable pub perform : Request → Void (Managed S)
  perform (add channel subscriber) = add_message_handler b channel subscriber
  perform (remove channel subscriber) = remove_message_handler b channel subscriber
  perform (remove_all subscriber) = remove_everywhere b subscriber

  -- An exception reaches the caller, who goes on with the next call.
  unfoldable pub run : List Request → Managed S → Managed S
  run [] w = w
  run (r ∷ rs) w = run rs (perform r w).1
