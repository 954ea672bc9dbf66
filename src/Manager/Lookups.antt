-- ===== src/Manager/Lookups.antt =====
-- A manager's map as a function of the channel, for managers of every type: the order of the map's
-- entries and what the broker does are out of sight.
mod Tests
use oregano.Base.{
  ℕ, String, ◌≡◌, refl, sym, ◌∙◌, ap, get_or, Void, for_each, Option, none, some, List, [], ◌∷◌,
  ℕ_discrete, is_empty, ite, String_discrete, arith, if◌then◌else◌,
}
use mathlib.Core.Path.{fun_ext}
use oregano.Dict.{find, put}
use oregano.Dict.Laws.{find-put, find-erase}
use oregano.Interfaces.{IMessageBroker}
use oregano.Manager.{
  MessageHandlerManager, SubscriptionType, transaction, is_transaction, contains, Managed,
  on_message, without, push_new, remove_everywhere,
}
use oregano.Manager.Cases.{add_cases, remove_cases}
use oregano.Manager.Entries.{retained, find-sweep}
use oregano.Manager.Registry.{perform-type}
use oregano.Manager.Requests.{Request, add, remove, remove_all, perform, run}
use oregano.Manager.WellFormed.{IsWellFormed, perform-IsWellFormed}

abbrev pub Lookup : Type 0
Lookup = String → Option (List ℕ)

abbrev pub lookup : MessageHandlerManager → Lookup
lookup m c = find c m.channel_subscriptions

-- The handlers in the order in which they joined, with one more: at the end, and where it has
-- joined before, nothing changes.
abbrev pub with_last : ℕ → List ℕ → List ℕ
with_last h [] = h ∷ []
with_last h (x ∷ xs) = ite (ℕ_discrete x h) (x ∷ xs) (x ∷ with_last h xs)

-- The handlers but for one, in their order.
abbrev pub all_but : ℕ → List ℕ → List ℕ
all_but h [] = []
all_but h (x ∷ xs) = ite (ℕ_discrete x h) (all_but h xs) (x ∷ all_but h xs)

-- No entry is kept without a handler.
abbrev pub if_any : List ℕ → Option (List ℕ)
if_any [] = none
if_any (x ∷ xs) = some (x ∷ xs)

-- What an added handler makes of the entry of its channel: a queue has one handler, the first.
abbrev pub joined : SubscriptionType → ℕ → Option (List ℕ) → Option (List ℕ)
joined t h none = some (h ∷ [])
joined transaction h (some xs) = some xs
joined _ h (some xs) = some (with_last h xs)

-- What a handler that leaves makes of an entry.
abbrev pub left_by : ℕ → Option (List ℕ) → Option (List ℕ)
left_by h none = none
left_by h (some xs) = if_any (all_but h xs)

push_new_lem : (h : ℕ) (xs : List ℕ) → push_new h xs ≡ with_last h xs
unfolding push_new contains
push_new_lem h [] = refl
push_new_lem h (x ∷ xs) = ground (arith, push_new_lem h xs)

without_lem : (h : ℕ) (xs : List ℕ) → without h xs ≡ all_but h xs
unfolding without
without_lem h [] = refl
without_lem h (x ∷ xs) = ground (arith, without_lem h xs)

retained_lem : (h : ℕ) (o : Option (List ℕ)) → retained h o ≡ left_by h o
retained_lem h none = refl
retained_lem h (some xs) = rw (without_lem h xs) (shown (all_but h xs))
  where
    shown : (ys : List ℕ) → (if is_empty ys then none else some ys) ≡ if_any ys
    shown [] = refl
    shown (y ∷ ys) = refl

-- The reference: a call changes the entry of its channel, or of every channel.
abbrev pub answered : SubscriptionType → Request → Lookup → Lookup
answered t (add c h) f j = ite (String_discrete c j) (joined t h (f j)) (f j)
answered t (remove c h) f j = ite (String_discrete c j) (left_by h (f j)) (f j)
answered t (remove_all h) f j = left_by h (f j)

abbrev pub answered_all : SubscriptionType → List Request → Lookup → Lookup
answered_all t [] f = f
answered_all t (r ∷ rs) f = answered_all t rs (answered t r f)

module _ {C S : Type 0} (b : IMessageBroker C S) where
  module _ (w : Managed S) (v : IsWellFormed w.manager) where
    open w.manager use {subscription_type as t, channel_subscriptions as subs}

    perform-lookup :
        (r : Request) (j : String)
        → lookup (perform b r w).1.manager j ≡ answered t r (lookup w.manager) j
    unfolding perform remove_everywhere
    perform-lookup (add c h) j =
        add_cases b c h w (λ r. lookup r.1.manager j ≡ answered t (add c h) (lookup w.manager) j)
          (λ e. ground (arith, find-put j c (h ∷ []) (put c [] subs), find-put j c [] subs))
          (λ xs e s. ground arith)
          (λ xs e s. ground (arith, push_new_lem h xs, find-put j c (push_new h xs) subs))
    perform-lookup (remove c h) j =
        remove_cases b c h w
          (λ r. lookup r.1.manager j ≡ answered t (remove c h) (lookup w.manager) j)
          (λ e. ground arith)
          (λ xs e s. ground (arith, retained_lem h (some xs), find-put j c (without h xs) subs))
          (λ xs e s. ground (arith, retained_lem h (some xs), find-erase j c subs v.keys))
    perform-lookup (remove_all h) j = find-sweep h j subs v.keys ∙ retained_lem h (find j subs)

  -- After any calls of a well-formed manager of any type, over any broker, each returning or
  -- throwing: the handlers stored for every channel are those of the reference, which has them in
  -- the order in which they joined, each once, and knows neither the order of the map's entries nor
  -- the broker.
  pub run-lookup :
      (rs : List Request) (w : Managed S)
      → IsWellFormed w.manager
      → lookup (run b rs w).manager ≡ answered_all w.manager.subscription_type rs (lookup w.manager)
  unfolding run
  run-lookup [] w v = refl
  run-lookup (r ∷ rs) w v =
      run-lookup rs (perform b r w).1 (perform-IsWellFormed b r w v)
      ∙ rw (perform-type b r w)
          (ap (answered_all w.manager.subscription_type rs) (fun_ext λ j. perform-lookup w v r j))

-- Two well-formed managers of one type that store the same handlers for every channel, in entries
-- of whatever order, over whatever brokers: after the same calls, a message to either calls the same
-- handlers in the same order, with the same result.
pub run-unordered :
    {C C' S S' W : Type 0} (b : IMessageBroker C S) (b' : IMessageBroker C' S') (w : Managed S)
    (w' : Managed S') (rs : List Request)
    → IsWellFormed w.manager
    → IsWellFormed w'.manager
    → w.manager.subscription_type ≡ w'.manager.subscription_type
    → ((c : String) → lookup w.manager c ≡ lookup w'.manager c)
    → (invoke : ℕ → String → String → Void W) (c t : String) (x : W)
    → on_message invoke (run b rs w).manager c t x ≡ on_message invoke (run b' rs w').manager c t x
unfolding on_message
run-unordered b b' w w' rs v v' e f invoke c t x =
    let same : lookup (run b rs w).manager ≡ lookup (run b' rs w').manager =
      run-lookup b rs w v
      ∙ (λ i. answered_all (e i) rs (fun_ext f i))
      ∙ sym (run-lookup b' rs w' v') in
    λ i. for_each (λ h. invoke h c t) (get_or (same i c) []) x
