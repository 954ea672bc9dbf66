-- ===== src/Manager/Registry.antt =====
-- A manager as a relation between channels and handlers: what its calls do to who listens where.
use oregano.Base.{
  ℕ, String, ◌≡◌, refl, ◌∙◌, Bool, true, false, not, ◌&&◌, Option, none, some, get_or, List, [],
  ◌∷◌, ite, ℕ_discrete, String_discrete, arith, is_empty, err, Option-cases, inl, inr, ap,
}
use mathlib.Core.Path.{fun_ext}
use oregano.Dict.{find, put}
use oregano.Dict.Laws.{find-put, find-erase}
use oregano.Interfaces.{IMessageBroker}
use oregano.Manager.{
  MessageHandlerManager, event, is_transaction, create, Managed, contains, without, push_new,
  only_one_handler, remove_everywhere,
}
use oregano.Manager.Entries.{contains-without, contains-push_new, find-sweep}
use oregano.Manager.Cases.{add_cases, remove_cases}
use oregano.Manager.Requests.{Request, add, remove, remove_all, perform, run}
use oregano.Manager.WellFormed.{IsWellFormed, create-IsWellFormed, perform-IsWellFormed}

-- The handlers of a channel, in the order of their registration.
abbrev pub handlers : MessageHandlerManager → String → List ℕ
handlers m c = get_or (find c m.channel_subscriptions) []

abbrev pub Listens : Type 0
Listens = String → ℕ → Bool

unfoldable pub listens : MessageHandlerManager → Listens
listens m c x = contains x (handlers m c)

abbrev pub is_some {ℓ} : {A : Type ℓ} → Option A → Bool
is_some none = false
is_some (some a) = true

-- A manager refuses one thing: a handler for a transaction channel that has one.
abbrev pub accepts : MessageHandlerManager → Request → Bool
accepts m (add c h) =
    not (is_some (find c m.channel_subscriptions) && is_transaction m.subscription_type)
accepts m _ = true

-- The specification: a call makes or ends the listening of one handler, to one channel or to all.
abbrev pub recorded : Request → Listens → Listens
recorded (add c h) r j x = ite (String_discrete c j) (ite (ℕ_discrete h x) true (r j x)) (r j x)
recorded (remove c h) r j x = ite (String_discrete c j) (ite (ℕ_discrete h x) false (r j x)) (r j x)
recorded (remove_all h) r j x = ite (ℕ_discrete h x) false (r j x)

abbrev pub replayed : List Request → Listens → Listens
replayed [] r = r
replayed (q ∷ qs) r = replayed qs (recorded q r)

is_empty-contains : (x : ℕ) (xs : List ℕ) → is_empty xs ≡ true → contains x xs ≡ false
unfolding contains
is_empty-contains x [] e = refl
is_empty-contains x (y ∷ xs) e = cc

module _ {C S : Type 0} (b : IMessageBroker C S) (w : Managed S) (v : IsWellFormed w.manager) where
  open w.manager use {subscription_type as t, channel_subscriptions as subs}

  add-listens :
      (c : String) (h : ℕ) (j : String) (x : ℕ)
      → accepts w.manager (add c h) ≡ true
      → listens (perform b (add c h) w).1.manager j x ≡ recorded (add c h) (listens w.manager) j x
  unfolding perform listens contains
  add-listens c h j x a =
      add_cases b c h w (λ r. listens r.1.manager j x ≡ recorded (add c h) (listens w.manager) j x)
        (λ e. ground (arith, find-put j c (h ∷ []) (put c [] subs), find-put j c [] subs))
        (λ xs e s. ground arith)
        (λ xs e s. ground (arith, find-put j c (push_new h xs) subs, contains-push_new x h xs))

  remove-listens :
      (c : String) (h : ℕ) (j : String) (x : ℕ)
      → listens (perform b (remove c h) w).1.manager j x
        ≡ recorded (remove c h) (listens w.manager) j x
  unfolding perform listens contains
  remove-listens c h j x =
      remove_cases b c h w
        (λ r. listens r.1.manager j x ≡ recorded (remove c h) (listens w.manager) j x)
        (λ e. ground arith)
        (λ xs e s. ground (arith, find-put j c (without h xs) subs, contains-without x h xs))
        (λ xs e s. ground (
          arith,
          find-erase j c subs v.keys,
          contains-without x h xs,
          is_empty-contains x (without h xs) s,
        ))

  remove_all-listens :
      (h : ℕ) (j : String) (x : ℕ)
      → listens (perform b (remove_all h) w).1.manager j x
        ≡ recorded (remove_all h) (listens w.manager) j x
  unfolding perform listens contains remove_everywhere
  remove_all-listens h j x = elim (Option-cases (find j subs)) [
    | inl e ↦ ground (arith, find-sweep h j subs v.keys)
    | inr (xs, e) ↦ ground (
      arith,
      find-sweep h j subs v.keys,
      contains-without x h xs,
      is_empty-contains x (without h xs),
    )
  ]

  -- A call that is not refused changes the relation as it says, and nothing else in it.
  pub perform-listens :
      (r : Request)
      → accepts w.manager r ≡ true
      → (j : String) (x : ℕ)
      → listens (perform b r w).1.manager j x ≡ recorded r (listens w.manager) j x
  perform-listens (add c h) a j x = add-listens c h j x a
  perform-listens (remove c h) a j x = remove-listens c h j x
  perform-listens (remove_all h) a j x = remove_all-listens h j x

  -- A call that is refused throws and changes nothing, at the broker either.
  pub perform_refused :
      (r : Request) → accepts w.manager r ≡ false → perform b r w ≡ (err only_one_handler, w)
  unfolding perform
  perform_refused (add c h) a =
      add_cases b c h w (λ r. r ≡ (err only_one_handler, w)) (λ e. ground arith) (λ xs e s. refl)
        (λ xs e s. ground arith)
  perform_refused (remove c h) a = cc
  perform_refused (remove_all h) a = cc

pub perform-type :
    {C S : Type 0} (b : IMessageBroker C S) (r : Request) (w : Managed S)
    → (perform b r w).1.manager.subscription_type ≡ w.manager.subscription_type
unfolding perform remove_everywhere
perform-type b (add c h) w =
    add_cases b c h w (λ r. r.1.manager.subscription_type ≡ w.manager.subscription_type) (λ e. refl)
      (λ xs e s. refl) (λ xs e s. refl)
perform-type b (remove c h) w =
    remove_cases b c h w (λ r. r.1.manager.subscription_type ≡ w.manager.subscription_type)
      (λ e. refl) (λ xs e s. refl) (λ xs e s. refl)
perform-type b (remove_all h) w = refl

accepts_all :
    (m : MessageHandlerManager) (r : Request)
    → is_transaction m.subscription_type ≡ false
    → accepts m r ≡ true
accepts_all m (add c h) s = ground arith
accepts_all m (remove c h) s = refl
accepts_all m (remove_all h) s = refl

module _ {C S : Type 0} (b : IMessageBroker C S) where
  run-replayed :
      (rs : List Request) (w : Managed S)
      → IsWellFormed w.manager
      → is_transaction w.manager.subscription_type ≡ false
      → listens (run b rs w).manager ≡ replayed rs (listens w.manager)
  unfolding run
  run-replayed [] w v s = refl
  run-replayed (r ∷ rs) w v s =
      run-replayed rs (perform b r w).1 (perform-IsWellFormed b r w v)
        (ap is_transaction (perform-type b r w) ∙ s)
      ∙ ap (replayed rs)
          (fun_ext λ j. fun_ext λ x. perform-listens b w v r (accepts_all w.manager r s) j x)

  -- After any calls, an event manager holds exactly the pairs of channel and handler that the calls
  -- have added and not removed since.
  pub run-event :
      (rs : List Request) (s : S) (c : String) (x : ℕ)
      → listens (run b rs (record { manager = create event; broker = s })).manager c x
        ≡ replayed rs (λ _ _. false) c x
  unfolding create listens contains find
  run-event rs s c x = λ i.
      run-replayed rs (record { manager = create event; broker = s }) (create-IsWellFormed event)
        refl i c x
