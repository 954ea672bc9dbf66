-- ===== src/Connector/Queue/First.antt =====
-- The technical channel is the first queue, before and after `listen` and `stop_listening`.
use oregano.Base.{String, ◌≡◌, ◌≢◌, ◌∙◌, sym, List, [], ◌∷◌, ◌++◌, String_discrete, if_neg}
use oregano.Connector.Queue.{remove}

-- The first queue is the technical channel.
abbrev pub StartsWith : String → List String → Type 0
StartsWith t [] = ⊥
StartsWith t (q ∷ qs) = q ≡ t

pub StartsWith-append :
    (t q : String) (qs : List String) → StartsWith t qs → StartsWith t (qs ++ q ∷ [])
StartsWith-append t q [] h = absurd h
StartsWith-append t q (x ∷ qs) h = h

pub StartsWith-remove :
    (t q : String) (qs : List String) → q ≢ t → StartsWith t qs → StartsWith t (remove q qs)
unfolding remove
StartsWith-remove t q [] n h = absurd h
StartsWith-remove t q (x ∷ qs) n h = elim (String_discrete x q) [
  | yes e ↦ absurd (n (sym e ∙ h))
  | no d ↦ rw (if_neg _ d) h
]
