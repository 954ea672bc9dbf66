-- ===== src/Dict.antt =====
-- std::unordered_map with text keys, as the list of its entries in the order of an iteration.
-- The source relies on no particular order, and the theorems hold for every list of entries.
pub mod Laws
use oregano.Base.{
  ℕ, String, ◌≡◌, Bool, true, false, Option, none, some, List, [], ◌∷◌, ite, String_discrete,
}

abbrev pub Dict {ℓ} : Type ℓ → Type ℓ
Dict V = List (String × V)

module _ {ℓ} {V : Type ℓ} where
  -- find; `none` is the end iterator
  unfoldable pub find : String → Dict V → Option V
  find k [] = none
  find k ((j, v) ∷ m) = ite (String_discrete j k) (some v) (find k m)

  -- m[k] = v
  unfoldable pub put : String → V → Dict V → Dict V
  put k v [] = (k, v) ∷ []
  put k v ((j, w) ∷ m) = ite (String_discrete j k) ((j, v) ∷ m) ((j, w) ∷ put k v m)

  -- erase(k)
  unfoldable pub erase : String → Dict V → Dict V
  erase k [] = []
  erase k ((j, w) ∷ m) = ite (String_discrete j k) m ((j, w) ∷ erase k m)

  -- emplace(k, v): an entry that is there stays, and the flag says whether there was none
  unfoldable pub emplace : String → V → Dict V → Dict V × Bool
  unfolding find put
  emplace k v m = elim (find k m) [ none ↦ (put k v m, true) | some w ↦ (m, false) ]

  -- No key stands in two entries.
  abbrev pub IsMap : Dict V → Type ℓ
  IsMap [] = Unit
  IsMap ((j, v) ∷ m) = (find j m ≡ none) × IsMap m
