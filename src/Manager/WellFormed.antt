-- ===== src/Manager/WellFormed.antt =====
-- The well-formed maps of a manager, method by method.
use oregano.Base.{
  ℕ, String, ◌≤◌, ◌≡◌, refl, true, false, none, some, List, [], ◌∷◌, arith, count, is_empty, length,
  IsDistinct, Option-cases, ◌⊎◌, inl, inr,
}
use oregano.Dict.{find, put, IsMap}
use oregano.Dict.Laws.{find-put, find-erase, put-IsMap, erase-IsMap}
use oregano.Interfaces.{IMessageBroker}
use oregano.Manager.{
  MessageHandlerManager, Managed, SubscriptionType, is_transaction, create, without, push_new,
  sweep, add_message_handler, remove_message_handler, remove_everywhere,
}
use oregano.Manager.Entries.{
  count-without-le, count-push_new-le, push_new-is_empty, find-sweep, sweep-IsMap,
  length-without-le,
}
use oregano.Manager.Cases.{add_cases, remove_cases}
use oregano.Manager.Requests.{Request, add, remove, remove_all, perform, run}

pub record IsVector (t : SubscriptionType) (xs : List ℕ) : Type 0 where
  pub filled : is_empty xs ≡ false
  pub distinct : IsDistinct xs
  pub single : is_transaction t ≡ true → length xs ≤ 1

pub record IsWellFormed (m : MessageHandlerManager) : Type 0 where
  pub keys : IsMap m.channel_subscriptions
  pub vectors :
      (c : String) (xs : List ℕ)
      → find c m.channel_subscriptions ≡ some xs
      → IsVector m.subscription_type xs

pub create-IsWellFormed : (t : SubscriptionType) → IsWellFormed (create t)
unfolding create find
create-IsWellFormed t = record { keys = tt; vectors = λ c xs e. cc }

without-IsVector :
    (t : SubscriptionType) (h : ℕ) (xs : List ℕ)
    → IsVector t xs
    → is_empty (without h xs) ≡ false
    → IsVector t (without h xs)
without-IsVector t h xs v e = record {
  filled = e;
  distinct = λ a. omega (arith, count-without-le a h xs, v.distinct a);
  single = λ s. omega (arith, length-without-le h xs, v.single s);
}

push_new-IsVector :
    (t : SubscriptionType) (h : ℕ) (xs : List ℕ)
    → IsVector t xs
    → is_transaction t ≡ false
    → IsVector t (push_new h xs)
push_new-IsVector t h xs v e = record {
  filled = push_new-is_empty h xs;
  distinct = λ a. count-push_new-le a h xs (v.distinct a);
  single = λ s. ground arith;
}

first-IsVector : (t : SubscriptionType) (h : ℕ) → IsVector t (h ∷ [])
unfolding count
first-IsVector t h = record {
  filled = refl;
  distinct = λ a. ground arith;
  single = λ s. omega arith;
}

-- An entry that is written, and the others as they were.
put-IsWellFormed :
    (m : MessageHandlerManager) (k : String) (xs : List ℕ)
    → IsWellFormed m
    → IsVector m.subscription_type xs
    → IsWellFormed (record m { channel_subscriptions = put k xs m.channel_subscriptions })
put-IsWellFormed m k xs v x = record {
  keys = put-IsMap k xs _ v.keys;
  vectors = λ c ys e. ground (arith, find-put c k xs m.channel_subscriptions, v.vectors c ys);
}

module _ {C S : Type 0} (b : IMessageBroker C S) (w : Managed S) (v : IsWellFormed w.manager) where
  open w.manager use {subscription_type as t, channel_subscriptions as subs}

  add-IsWellFormed :
      (channel : String) (h : ℕ) → IsWellFormed (add_message_handler b channel h w).1.manager
  add-IsWellFormed channel h =
      add_cases b channel h w (λ r. IsWellFormed r.1.manager)
        (λ e. record {
          keys = put-IsMap channel (h ∷ []) _ (put-IsMap channel [] _ v.keys);
          vectors = λ c ys p. ground (
            arith,
            find-put c channel (h ∷ []) (put channel [] subs),
            find-put c channel [] subs,
            v.vectors c ys,
            first-IsVector t h,
          );
        })
        (λ xs e s. v)
        (λ xs e s.
          put-IsWellFormed w.manager channel _ v (push_new-IsVector t h xs (v.vectors _ _ e) s))

  remove-IsWellFormed :
      (channel : String) (h : ℕ) → IsWellFormed (remove_message_handler b channel h w).1.manager
  remove-IsWellFormed channel h =
      remove_cases b channel h w (λ r. IsWellFormed r.1.manager) (λ e. v)
        (λ xs e s.
          put-IsWellFormed w.manager channel _ v (without-IsVector t h xs (v.vectors _ _ e) s))
        (λ xs e s. record {
          keys = erase-IsMap channel _ v.keys;
          vectors = λ c ys p. ground (arith, find-erase c channel subs v.keys, v.vectors c ys);
        })

  remove_everywhere-IsWellFormed : (h : ℕ) → IsWellFormed (remove_everywhere b h w).1.manager
  unfolding remove_everywhere
  remove_everywhere-IsWellFormed h = record {
    keys = sweep-IsMap h _ v.keys;
    vectors = λ c ys p. swept c ys p (Option-cases (find c subs));
  }
    where
      swept :
          (c : String) (ys : List ℕ)
          → find c (sweep h subs).0 ≡ some ys
          → ((find c subs ≡ none) ⊎ ((a : List ℕ) × (find c subs ≡ some a)))
          → IsVector t ys
      swept c ys p (inl e) = ground (arith, find-sweep h c subs v.keys)
      swept c ys p (inr (xs, e)) =
          ground (arith, find-sweep h c subs v.keys, without-IsVector t h xs (v.vectors c xs e))

module _ {C S : Type 0} (b : IMessageBroker C S) where
  -- Every method keeps the map well formed, whether it returns or throws, and whatever the broker
  -- does.
  pub perform-IsWellFormed :
      (r : Request) (w : Managed S)
      → IsWellFormed w.manager
      → IsWellFormed (perform b r w).1.manager
  unfolding perform
  perform-IsWellFormed (add c h) w v = add-IsWellFormed b w v c h
  perform-IsWellFormed (remove c h) w v = remove-IsWellFormed b w v c h
  perform-IsWellFormed (remove_all h) w v = remove_everywhere-IsWellFormed b w v h

  -- After any calls, each returning or throwing, the map is well formed if it was before: no channel
  -- has two entries, an entry has a handler, none twice, and one only on a transaction manager.
  pub run-IsWellFormed :
      (rs : List Request) (w : Managed S)
      → IsWellFormed w.manager
      → IsWellFormed (run b rs w).manager
  unfolding run
  run-IsWellFormed [] w v = v
  run-IsWellFormed (r ∷ rs) w v = run-IsWellFormed rs (perform b r w).1 (perform-IsWellFormed r w v)
