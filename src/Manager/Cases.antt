-- ===== src/Manager/Cases.antt =====
-- The branches of the methods of a manager, for proofs that follow them.
use oregano.Base.{
  ℕ, String, ◌≡◌, refl, true, false, none, some, List, [], ◌∷◌, is_empty, Result, ok, err,
  String_discrete, if_pos, Bool-cases, Option-cases, inl, inr,
}
use oregano.Dict.{Dict, find, put, erase}
use oregano.Dict.Laws.{find-put, emplace_new, emplace_old}
use oregano.Interfaces.{IMessageBroker}
use oregano.Manager.{
  Managed, is_transaction, only_one_handler, on_broker, with_subscriptions, announce, withdraw,
  contains, without, push_new, add_message_handler, remove_from, remove_message_handler,
}

pub find-put_self : (c : String) (v : List ℕ) (m : Dict (List ℕ)) → find c (put c v m) ≡ some v
find-put_self c v m = rw find-put (if_pos (String_discrete c c) refl _ _)

module _ {C S : Type 0} (b : IMessageBroker C S) (channel : String) (h : ℕ) (w : Managed S) where
  open w.manager use {subscription_type as t, channel_subscriptions as subs}

  pub add_cases :
      (P : Result (Unit {0}) × Managed S → Type 0)
      → (find channel subs ≡ none
          → P (
              on_broker
                (announce b t channel)
                (with_subscriptions w (put channel (h ∷ []) (put channel [] subs)))))
      → ((xs : List ℕ)
          → find channel subs ≡ some xs
          → is_transaction t ≡ true
          → P (err only_one_handler, w))
      → ((xs : List ℕ)
          → find channel subs ≡ some xs
          → is_transaction t ≡ false
          → P (ok tt, with_subscriptions w (put channel (push_new h xs) subs)))
      → P (add_message_handler b channel h w)
  unfolding add_message_handler push_new contains
  add_cases P fresh refused joined = elim (Option-cases (find channel subs)) [
    | inl e ↦ rw (emplace_new channel [] subs e, find-put_self channel [] subs) (fresh e)
    | inr (xs, e) ↦ elim (Bool-cases (is_transaction t)) [
      | inl s ↦ rw (emplace_old channel [] subs e, s) (refused xs e s)
      | inr s ↦ rw (emplace_old channel [] subs e, s, e) (joined xs e s)
    ]
  ]

  pub remove_cases :
      (P : Result (Unit {0}) × Managed S → Type 0)
      → (find channel subs ≡ none → P (ok tt, w))
      → ((xs : List ℕ)
          → find channel subs ≡ some xs
          → is_empty (without h xs) ≡ false
          → P (ok tt, with_subscriptions w (put channel (without h xs) subs)))
      → ((xs : List ℕ)
          → find channel subs ≡ some xs
          → is_empty (without h xs) ≡ true
          → P (on_broker (withdraw b t channel) (with_subscriptions w (erase channel subs))))
      → P (remove_message_handler b channel h w)
  unfolding remove_message_handler remove_from
  remove_cases P absent kept last = elim (Option-cases (find channel subs)) [
    | inl e ↦ rw (e, remove_from) (absent e)
    | inr (xs, e) ↦ elim (Bool-cases (is_empty (without h xs))) [
      | inl s ↦ rw (e, remove_from, s) (last xs e s)
      | inr s ↦ rw (e, remove_from, s) (kept xs e s)
    ]
  ]
