-- ===== src/Dict/Laws.antt =====
-- What the operations of a map do to a lookup, and that they keep its keys apart.
use oregano.Base.{String, ◌≡◌, refl, true, false, none, some, [], ◌∷◌, ite, String_discrete, arith}
use oregano.Dict.{Dict, find, put, erase, emplace, IsMap}

module _ {ℓ} {V : Type ℓ} where
  pub find-put :
      (j k : String) (v : V) (m : Dict V)
      → find j (put k v m) ≡ ite (String_discrete k j) (some v) (find j m)
  unfolding find put
  find-put j k v [] = refl
  find-put j k v ((i, w) ∷ m) = ground (arith, find-put j k v m)

  pub find-erase :
      (j k : String) (m : Dict V)
      → IsMap m
      → find j (erase k m) ≡ ite (String_discrete k j) none (find j m)
  unfolding find erase
  find-erase j k [] u = ground arith
  find-erase j k ((i, w) ∷ m) u = ground (arith, find-erase j k m u.1)

  pub put-IsMap : (k : String) (v : V) (m : Dict V) → IsMap m → IsMap (put k v m)
  unfolding find put
  put-IsMap k v [] u = ground arith
  put-IsMap k v ((i, w) ∷ m) u = ground (arith, find-put i k v m, put-IsMap k v m u.1)

  pub erase-IsMap : (k : String) (m : Dict V) → IsMap m → IsMap (erase k m)
  unfolding find erase
  erase-IsMap k [] u = tt
  erase-IsMap k ((i, w) ∷ m) u = ground (arith, find-erase i k m u.1, erase-IsMap k m u.1)

  pub emplace_new :
      (k : String) (v : V) (m : Dict V) → find k m ≡ none → emplace k v m ≡ (put k v m, true)
  unfolding emplace
  emplace_new k v m e = rw (e, emplace)

  pub emplace_old :
      (k : String) (v : V) (m : Dict V) {w : V} → find k m ≡ some w → emplace k v m ≡ (m, false)
  unfolding emplace
  emplace_old k v m e = rw (e, emplace)

  pub erase-put : (k : String) (v : V) (m : Dict V) → find k m ≡ none → erase k (put k v m) ≡ m
  unfolding find put erase
  erase-put k v [] e = ground arith
  erase-put k v ((j, w) ∷ m) e = ground (arith, erase-put k v m)

  pub put-put : (k : String) (u v : V) (m : Dict V) → put k v (put k u m) ≡ put k v m
  unfolding find put
  put-put k u v [] = ground arith
  put-put k u v ((j, w) ∷ m) = ground (arith, put-put k u v m)
