-- ===== src/Manager/Entries.antt =====
-- Lemmas on one vector of handlers, and on the sweep through all of them.
use oregano.Base.{
  ℕ, String, ◌+◌, ◌≤◌, ◌≡◌, refl, true, false, Option, none, some, List, [], ◌∷◌, ◌++◌, ite,
  ℕ_discrete, String_discrete, arith, count, count-append, is_empty, length, if◌then◌else◌,
}
use oregano.Dict.{Dict, find, IsMap}
use oregano.Manager.{contains, without, push_new, sweep}

pub contains-without :
    (x h : ℕ) (xs : List ℕ) → contains x (without h xs) ≡ ite (ℕ_discrete h x) false (contains x xs)
unfolding contains without
contains-without x h [] = ground arith
contains-without x h (y ∷ xs) = ground (arith, contains-without x h xs)

contains-append :
    (x h : ℕ) (xs : List ℕ) → contains x (xs ++ h ∷ []) ≡ ite (ℕ_discrete h x) true (contains x xs)
unfolding contains
contains-append x h [] = refl
contains-append x h (y ∷ xs) = ground (arith, contains-append x h xs)

pub contains-push_new :
    (x h : ℕ) (xs : List ℕ) → contains x (push_new h xs) ≡ ite (ℕ_discrete h x) true (contains x xs)
unfolding push_new
contains-push_new x h xs = ground (arith, contains-append x h xs)

count-contains : (h : ℕ) (xs : List ℕ) → contains h xs ≡ false → count h xs ≡ 0
unfolding contains count
count-contains h [] e = refl
count-contains h (y ∷ xs) e = ground (arith, count-contains h xs)

pub count-without-le : (x h : ℕ) (xs : List ℕ) → count x (without h xs) ≤ count x xs
unfolding without count
count-without-le x h [] = omega arith
count-without-le x h (y ∷ xs) = ground (arith, count-without-le x h xs)

pub count-push_new-le : (x h : ℕ) (xs : List ℕ) → count x xs ≤ 1 → count x (push_new h xs) ≤ 1
unfolding push_new count
count-push_new-le x h xs u = ground (arith, count-append x xs (h ∷ []), count-contains h xs)

pub push_new-is_empty : (h : ℕ) (xs : List ℕ) → is_empty (push_new h xs) ≡ false
unfolding push_new contains
push_new-is_empty h [] = refl
push_new-is_empty h (y ∷ xs) = ground arith

-- What the sweep leaves of one entry.
abbrev pub retained : ℕ → Option (List ℕ) → Option (List ℕ)
retained h none = none
retained h (some xs) = if is_empty (without h xs) then none else some (without h xs)

pub find-sweep :
    (h : ℕ) (c : String) (m : Dict (List ℕ))
    → IsMap m
    → find c (sweep h m).0 ≡ retained h (find c m)
unfolding find sweep
find-sweep h c [] u = refl
find-sweep h c ((j, xs) ∷ m) u = ground (arith, find-sweep h c m u.1)

pub sweep-IsMap : (h : ℕ) (m : Dict (List ℕ)) → IsMap m → IsMap (sweep h m).0
unfolding find sweep
sweep-IsMap h [] u = tt
sweep-IsMap h ((j, xs) ∷ m) u = ground (arith, find-sweep h j m u.1, sweep-IsMap h m u.1)

-- One if the channel has an entry.
abbrev pub one_if_some : Option (List ℕ) → ℕ
one_if_some none = 0
one_if_some (some xs) = 1

unfoldable pub held : String → Dict (List ℕ) → ℕ
unfolding find
held c m = one_if_some (find c m)

-- How often a channel stands in a list.
unfoldable pub times : String → List String → ℕ
times c [] = 0
times c (j ∷ cs) = ite (String_discrete j c) 1 0 + times c cs

-- The channels that the sweep reports are those that lose their entry, each once.
pub times-sweep :
    (h : ℕ) (c : String) (m : Dict (List ℕ))
    → IsMap m
    → times c (sweep h m).1 + held c (sweep h m).0 ≡ held c m
unfolding find sweep times held
times-sweep h c [] u = refl
times-sweep h c ((j, xs) ∷ m) u = ground (arith, times-sweep h c m u.1, find-sweep h c m u.1)

pub length-without-le : (h : ℕ) (xs : List ℕ) → length (without h xs) ≤ length xs
unfolding without
length-without-le h [] = omega arith
length-without-le h (y ∷ xs) = ground (arith, length-without-le h xs)

pub held-le-one : (c : String) (m : Dict (List ℕ)) → held c m ≤ 1
unfolding held
held-le-one c m = ground arith
