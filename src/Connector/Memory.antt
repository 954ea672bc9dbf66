-- ===== src/Connector/Memory.antt =====
-- A Redis server as functions, to run the connector on.
use oregano.Base.{
  Bool, String, ◌≡◌, ◌≢◌, refl, sym, ap, ◌∙◌, Option, none, some, List, [], ◌∷◌, ◌++◌, ite, if_pos,
  if_neg, String_discrete, All, arith, Option-cases, inl, inr, false, true,
}
use oregano.Connector.Redis.{RedisLists, RedisChannels}

-- The last element and what stands before it.
abbrev pub pop_last : List String → Option (List String × String)
pop_last [] = none
pop_last (x ∷ xs) = elim (pop_last xs) [ none ↦ some ([], x) | some (ys, y) ↦ some (x ∷ ys, y) ]

abbrev pub Memory : Type 0
Memory = String → List String

abbrev pub set : String → List String → Memory → Memory
set q l r j = ite (String_discrete q j) l (r j)

abbrev pub brpop : List String → Memory → Option ((String × String) × Memory)
brpop [] r = none
brpop (q ∷ qs) r = elim (pop_last (r q)) [
  | none ↦ brpop qs r
  | some (l, m) ↦ some ((q, m), set q l r)
]

pop_last-none : (l : List String) → pop_last l ≡ none → l ≡ []
pop_last-none [] e = refl
pop_last-none (x ∷ xs) e = ground arith

pop_last-some : (l ys : List String) (y : String) → pop_last l ≡ some (ys, y) → l ≡ ys ++ y ∷ []
pop_last-some [] ys y e = cc
pop_last-some (x ∷ xs) ys y e = elim (Option-cases (pop_last xs)) [
  | inl n ↦ ground (arith, pop_last-none xs n)
  | inr (p, h) ↦ ground (arith, pop_last-some xs (p.0) (p.1) h)
]

pub brpop_blocks : (qs : List String) (r : Memory) → brpop qs r ≡ none → All (λ q. r q ≡ []) qs
brpop_blocks [] r e = tt
brpop_blocks (q ∷ qs) r e = ground (arith, pop_last-none (r q), brpop_blocks qs r)

takes_here :
    (x q m : String) (l : List String) (y : String) (r r' : Memory)
    → r x ≡ l ++ y ∷ []
    → ◌≡◌ {A = Option ((String × String) × Memory)} (some ((x, y), set x l r)) (some ((q, m), r'))
    → (r q ≡ r' q ++ m ∷ []) × ((j : String) → j ≢ q → r' j ≡ r j)
takes_here x q m l y r r' e f =
    let same : x ≡ q = cc in
    let last : y ≡ m = cc in
    let after : set x l r ≡ r' = cc in
    rw⁻¹ after rw⁻¹ same rw⁻¹ last (
      e ∙ ap (λ t. t ++ y ∷ []) (sym (if_pos (String_discrete x x) refl l (r x))),
      λ j n. if_neg (String_discrete x j) (λ h. n (sym h)) l (r j),
    )

pub brpop_takes :
    (qs : List String) (r : Memory) (q m : String) (r' : Memory)
    → brpop qs r ≡ some ((q, m), r')
    → (r q ≡ r' q ++ m ∷ []) × ((j : String) → j ≢ q → r' j ≡ r j)
brpop_takes [] r q m r' e = cc
brpop_takes (x ∷ qs) r q m r' e = elim (Option-cases (pop_last (r x))) [
  | inl n ↦ brpop_takes qs r q m r' (ground arith)
  | inr (p, h) ↦ takes_here x q m (p.0) (p.1) r r' (pop_last-some (r x) (p.0) (p.1) h) ground arith
]

pub set_at :
    (q : String) (f : List String → List String) (r : Memory) (j : String)
    → set q (f (r q)) r j ≡ ite (String_discrete q j) (f (r j)) (r j)
set_at q f r j = by_test (String_discrete q j)
  where
    by_test : (d : Dec (q ≡ j)) → ite d (f (r q)) (r j) ≡ ite d (f (r j)) (r j)
    by_test (yes e) = ap (λ k. f (r k)) e
    by_test (no n) = refl

abbrev pub memory : RedisLists Memory
memory = record {
  lists = λ r q. r q;
  lpush = λ q m r. set q (m ∷ r q) r;
  rpush = λ q m r. set q (r q ++ m ∷ []) r;
  brpop = brpop;
  lists-lpush = λ q m r j. set_at q (λ l. m ∷ l) r j;
  lists-rpush = λ q m r j. set_at q (λ l. l ++ m ∷ []) r j;
  brpop_blocks = brpop_blocks;
  brpop_takes = brpop_takes;
}

-- Channels by whether they are subscribed.
abbrev pub flags : RedisChannels (String → Bool)
flags = record {
  subscribed = λ p j. p j;
  publish = λ c m p. p;
  subscribe = λ c p j. ite (String_discrete c j) true (p j);
  unsubscribe = λ c p j. ite (String_discrete c j) false (p j);
  subscribed-publish = λ c m p j. refl;
  subscribed-subscribe = λ c p j. refl;
  subscribed-unsubscribe = λ c p j. refl;
}

abbrev pub nothing : Memory
nothing q = []
