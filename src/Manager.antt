-- ===== src/Manager.antt =====
-- src/implementation/MessageHandlerManager.cpp and .h: which handlers listen on which channel.
-- A handler is its address (`&element.get()`), a number. Each method holds the lock of the manager
-- from its first line to its last, so it is one step.
pub mod Entries
pub mod Cases
pub mod Requests
pub mod WellFormed
pub mod Registry
pub mod References
pub mod Lookups
pub mod Dispatch
pub mod Faults
mod Tests
use oregano.Base.{
  ℕ, String, Bool, true, false, not, ◌&&◌, Option, get_or, List, [], ◌∷◌, ◌++◌, ite, ℕ_discrete,
  Exception, Result, ok, err, Exec, Void, and_then, throw, for_each, is_empty, if◌then◌else◌,
}
use oregano.Dict.{Dict, find, put, erase, emplace}
use oregano.Interfaces.{IMessageBroker}

-- `MessageHandlerManager::Type`; `other` is a value of the enum with no name, which runs into the
-- `default` of each switch.
pub data SubscriptionType : Type 0 where
  event : SubscriptionType
  transaction : SubscriptionType
  other : ℕ → SubscriptionType

pub record MessageHandlerManager : Type 0 where
  pub subscription_type : SubscriptionType
  pub channel_subscriptions : Dict (List ℕ)

-- A manager beside the state of the broker that it calls.
pub record Managed (S : Type 0) : Type 0 where
  pub manager : MessageHandlerManager
  pub broker : S

abbrev pub only_one_handler : Exception
only_one_handler =
    Exception.handler_manager "Only one handler should listen on a transaction channel"

abbrev pub unhandled_type : Exception
unhandled_type = Exception.handler_manager "Unhandled type!"

unfoldable pub create : SubscriptionType → MessageHandlerManager
create t = record { subscription_type = t; channel_subscriptions = [] }

abbrev pub is_transaction : SubscriptionType → Bool
is_transaction transaction = true
is_transaction _ = false

-- std::find_if over the vector
unfoldable pub contains : ℕ → List ℕ → Bool
contains h [] = false
contains h (x ∷ xs) = ite (ℕ_discrete x h) true (contains h xs)

-- erase(remove_if(...)) over the vector
unfoldable pub without : ℕ → List ℕ → List ℕ
without h [] = []
without h (x ∷ xs) = ite (ℕ_discrete x h) (without h xs) (x ∷ without h xs)

-- push_back, unless the handler is there
unfoldable pub push_new : ℕ → List ℕ → List ℕ
unfolding contains
push_new h xs = if contains h xs then xs else xs ++ h ∷ []

-- The iteration of `remove_message_handler(p_subscriber)`: the entries that stay, and the channels
-- that lost their last handler, in the order of the iteration.
unfoldable pub sweep : ℕ → Dict (List ℕ) → Dict (List ℕ) × List String
unfolding without
sweep h [] = ([], [])
sweep h ((c, xs) ∷ m) =
    let (kept, empty_channels) = sweep h m in
    if is_empty (without h xs)
    then (kept, c ∷ empty_channels)
    else ((c, without h xs) ∷ kept, empty_channels)

module _ {C S : Type 0} (b : IMessageBroker C S) where
  -- the switch of `add_message_handler`
  unfoldable pub announce : SubscriptionType → String → Void S
  announce event channel = b.subscribe channel
  announce transaction channel = b.listen channel
  announce (other n) channel = throw unhandled_type

  -- the switch of both `remove_message_handler`
  unfoldable pub withdraw : SubscriptionType → String → Void S
  withdraw event channel = b.unsubscribe channel
  withdraw transaction channel = b.stop_listening channel
  withdraw (other n) channel = throw unhandled_type

-- A call of the broker changes the broker's part of the state.
abbrev pub on_broker : {S A : Type 0} → Exec S A → Exec (Managed S) A
on_broker f w = let (r, s) = f w.broker in (r, record w { broker = s })

abbrev pub with_subscriptions : {S : Type 0} → Managed S → Dict (List ℕ) → Managed S
with_subscriptions w subs = record w {
  manager = record (w.manager) { channel_subscriptions = subs };
}

module _ {C S : Type 0} (b : IMessageBroker C S) where
  unfoldable pub add_message_handler : String → ℕ → Void (Managed S)
  add_message_handler channel subscriber w =
      let t = w.manager.subscription_type in
      let (subs, is_new_channel) = emplace channel [] w.manager.channel_subscriptions in
      if not is_new_channel && is_transaction t
      then (err only_one_handler, with_subscriptions w subs)
      else let subscriber_vector = get_or (find channel subs) [] in
        let added =
          with_subscriptions w (put channel (push_new subscriber subscriber_vector) subs) in
        if is_new_channel then on_broker (announce b t channel) added else (ok tt, added)

  -- what is left to do for a channel that has been found
  unfoldable pub remove_from : String → ℕ → Option (List ℕ) → Void (Managed S)
  remove_from channel subscriber Option.none w = (ok tt, w)
  remove_from channel subscriber (Option.some subscribers) w =
      let t = w.manager.subscription_type in
      let subs = w.manager.channel_subscriptions in
      let left = without subscriber subscribers in
      if not (is_empty left)
      then (ok tt, with_subscriptions w (put channel left subs))
      else on_broker (withdraw b t channel) (with_subscriptions w (erase channel subs))

  unfoldable pub remove_message_handler : String → ℕ → Void (Managed S)
  unfolding remove_from
  remove_message_handler channel subscriber w =
      remove_from channel subscriber (find channel w.manager.channel_subscriptions) w

  -- `remove_message_handler(p_subscriber)`, from every channel
  unfoldable pub remove_everywhere : ℕ → Void (Managed S)
  remove_everywhere subscriber w =
      let (kept, empty_channels) = sweep subscriber w.manager.channel_subscriptions in
      on_broker (for_each (withdraw b w.manager.subscription_type) empty_channels)
        (with_subscriptions w kept)

-- `invoke` is `IMessageHandler::on_message` of the handlers, over the state `W` that they change.
module _ {W : Type 0} (invoke : ℕ → String → String → Void W) where
  unfoldable pub on_message : MessageHandlerManager → String → String → Void W
  on_message m channel message =
      for_each (λ subscriber. invoke subscriber channel message)
        (get_or (find channel m.channel_subscriptions) [])
