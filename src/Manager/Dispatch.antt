-- ===== src/Manager/Dispatch.antt =====
-- Delivery: which handlers get a message, in which order, and what a handler that throws does.
use oregano.Base.{
  ℕ, String, ◌+◌, ◌≤◌, ◌≡◌, refl, Option, none, some, List, [], ◌∷◌, ◌++◌, ite, ap, ◌∙◌, ◌⊎◌,
  ℕ_discrete, arith, count, Result, ok, err, Exception, Void, for_each, if◌then◌else◌, Option-cases,
  inl, inr,
}
use mathlib.Core.List.{append-nil, append_assoc}
use oregano.Dict.{find}
use oregano.Manager.{MessageHandlerManager, contains, on_message}
use oregano.Manager.WellFormed.{IsWellFormed}
use oregano.Manager.Registry.{handlers, listens}

-- One call of a handler.
pub record Delivery : Type 0 where
  pub handler : ℕ
  pub channel : String
  pub message : String

abbrev pub sent : ℕ → String → String → Delivery
sent h c t = record { handler = h; channel = c; message = t }

-- Handlers that note the call, and then return or throw.
abbrev outcome : Option Exception → Result (Unit {0})
outcome none = ok tt
outcome (some e) = err e

abbrev pub noting : (ℕ → Option Exception) → ℕ → String → String → Void (List Delivery)
noting fails h c t log = (outcome (fails h), log ++ sent h c t ∷ [])

-- The calls that are made: up to the first handler that throws.
abbrev pub reached : (ℕ → Option Exception) → String → String → List ℕ → List Delivery
reached fails c t [] = []
reached fails c t (h ∷ hs) =
    sent h c t ∷ elim (fails h) [ none ↦ reached fails c t hs | some e ↦ [] ]

abbrev pub first_failure : (ℕ → Option Exception) → List ℕ → Result (Unit {0})
first_failure fails [] = ok tt
first_failure fails (h ∷ hs) =
    let rest = first_failure fails hs in elim (fails h) [ none ↦ rest | some e ↦ err e ]

for_each-noting :
    (fails : ℕ → Option Exception) (c t : String) (hs : List ℕ) (log : List Delivery)
    → for_each (λ h. noting fails h c t) hs log
      ≡ (first_failure fails hs, log ++ reached fails c t hs)
unfolding for_each
for_each-noting fails c t [] log = ground (arith, append-nil log)
for_each-noting fails c t (h ∷ hs) log = elim (Option-cases (fails h)) [
  | inl e ↦ ground (
    arith,
    for_each-noting fails c t hs (log ++ sent h c t ∷ []),
    append_assoc log (sent h c t ∷ []) (reached fails c t hs),
  )
  | inr (x, e) ↦ ground arith
]

-- A message reaches the handlers of its channel in the order of their registration, until one
-- throws; that exception is the result.
pub on_message-order :
    (fails : ℕ → Option Exception) (m : MessageHandlerManager) (c t : String) (log : List Delivery)
    → on_message (noting fails) m c t log
      ≡ (first_failure fails (handlers m c), log ++ reached fails c t (handlers m c))
unfolding on_message
on_message-order fails m c t log = for_each-noting fails c t (handlers m c) log

-- How often a handler was called.
abbrev pub calls_of : ℕ → List Delivery → ℕ
calls_of h [] = 0
calls_of h (d ∷ ds) = ite (ℕ_discrete d.handler h) 1 0 + calls_of h ds

calls_of-append :
    (h : ℕ) (xs ys : List Delivery) → calls_of h (xs ++ ys) ≡ calls_of h xs + calls_of h ys
calls_of-append h [] ys = omega arith
calls_of-append h (d ∷ xs) ys = omega (arith, calls_of-append h xs ys)

calls_of-reached :
    (h : ℕ) (c t : String) (hs : List ℕ) → calls_of h (reached (λ _. none) c t hs) ≡ count h hs
unfolding count
calls_of-reached h c t [] = refl
calls_of-reached h c t (x ∷ hs) = ground (arith, calls_of-reached h c t hs)

count-distinct :
    (h : ℕ) (xs : List ℕ) → count h xs ≤ 1 → count h xs ≡ (if contains h xs then 1 else 0)
unfolding count contains
count-distinct h [] d = refl
count-distinct h (x ∷ xs) d = ground (arith, count-distinct h xs)

-- When no handler throws, each one that listens to the channel is called exactly once, and no
-- other is called.
pub on_message_once :
    (m : MessageHandlerManager) (h : ℕ) (c t : String) (log : List Delivery)
    → IsWellFormed m
    → calls_of h (on_message (noting (λ _. none)) m c t log).1
      ≡ calls_of h log + (if listens m c h then 1 else 0)
unfolding listens
on_message_once m h c t log v = rw on_message-order (
    calls_of-append h log (reached (λ _. none) c t (handlers m c))
    ∙ ap (λ n. calls_of h log + n)
        (calls_of-reached h c t (handlers m c)
          ∙ count-distinct h (handlers m c)
              (distinct (Option-cases (find c m.channel_subscriptions)))))
  where
    distinct :
        (find c m.channel_subscriptions ≡ none)
          ⊎ ((xs : List ℕ) × (find c m.channel_subscriptions ≡ some xs))
        → count h (handlers m c) ≤ 1
    distinct (inl e) = rw e (unfold count in omega arith)
    distinct (inr (xs, e)) = rw e ((v.vectors c xs e).distinct h)
