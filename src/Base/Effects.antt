-- ===== src/Base/Effects.antt =====
-- Code that changes a state and may throw. A throw keeps the changes made before it, as in C++.
use Prim.Native.Nat.{ℕ}
use Prim.Native.String.{String}
use mathlib.Core.Path.{◌≡◌, refl}
use mathlib.Core.List.{List, [], ◌∷◌}

-- The exceptions of the source; `foreign` is one that code outside the repository throws, and
-- `terminate` the end of the program.
pub data Exception : Type 0 where
  handler_manager : String → Exception
  runtime_error : String → Exception
  result_already_read : String → Exception
  then_already_applied : String → Exception
  foreign : ℕ → Exception
  terminate : Exception

pub data Result {ℓ} (A : Type ℓ) : Type ℓ where
  ok : A → Result A
  err : Exception → Result A

abbrev pub Exec {ℓ κ} : Type ℓ → Type κ → Type (ℓ ⊔ κ)
Exec S A = S → Result A × S

-- What follows runs on the state that the first part leaves, unless that part throws.
abbrev pub and_then {ℓ κ μ} :
    {S : Type ℓ} {A : Type κ} {B : Type μ} → (A → Exec S B) → Result A × S → Result B × S
and_then f (ok a, s) = f a s
and_then f (err e, s) = (err e, s)

infixl 5 ◌>>=◌ ◌>>◌
abbrev pub ◌>>=◌ {ℓ κ μ} :
    {S : Type ℓ} {A : Type κ} {B : Type μ} → Exec S A → (A → Exec S B) → Exec S B
◌>>=◌ m f s = and_then f (m s)

abbrev pub ◌>>◌ {ℓ κ μ} : {S : Type ℓ} {A : Type κ} {B : Type μ} → Exec S A → Exec S B → Exec S B
m >> k = m >>= λ _. k

abbrev pub pure {ℓ κ} : {S : Type ℓ} {A : Type κ} → A → Exec S A
pure a s = (ok a, s)

abbrev pub throw {ℓ κ} : {S : Type ℓ} {A : Type κ} → Exception → Exec S A
throw e s = (err e, s)

abbrev pub Void {ℓ} : Type ℓ → Type ℓ
Void S = Exec S (Unit {0})

-- A loop over a collection; a throw ends it.
unfoldable pub for_each {ℓ κ} : {S : Type ℓ} {A : Type κ} → (A → Void S) → List A → Void S
for_each body [] s = (ok tt, s)
for_each body (a ∷ as') s = and_then (λ _. for_each body as') (body a s)

pub and_then_cong :
    {S : Type 0} {A : Type 0} {B : Type 0} {f g : A → Exec S B}
    → ((a : A) (s : S) → f a s ≡ g a s)
    → (x : Result A × S) → and_then f x ≡ and_then g x
and_then_cong h (ok a, s) = h a s
and_then_cong h (err e, s) = refl

pub and_then_assoc :
    {S : Type 0} {A : Type 0} {B : Type 0} {C : Type 0} (f : A → Exec S B) (g : B → Exec S C)
    (x : Result A × S)
    → and_then g (and_then f x) ≡ and_then (λ a s. and_then g (f a s)) x
and_then_assoc f g (ok a, s) = refl
and_then_assoc f g (err e, s) = refl

pub and_then-ok : {S : Type 0} (x : Result (Unit {0}) × S) → and_then (λ _ s. (ok tt, s)) x ≡ x
and_then-ok (ok a, s) = refl
and_then-ok (err e, s) = refl
