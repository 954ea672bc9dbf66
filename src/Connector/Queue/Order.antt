-- ===== src/Connector/Queue/Order.antt =====
-- The requests in one queue, as LPUSH and BRPOP treat them.
use mathlib.Core.List.{reverse, reverse-cons, reverse-append, append_assoc, append-nil}
use oregano.Base.{
  String, ◌≡◌, refl, sym, ap, ◌∙◌, some, List, [], ◌∷◌, ◌++◌, if_pos, String_discrete,
}
use oregano.Connector.Redis.{RedisLists}
use oregano.Connector.Queue.{send_request}

module _ {R : Type 0} (redis : RedisLists R) (queue : String) where
  open redis use {lists, lists-lpush, brpop, brpop_takes}

  -- The requests that wait in the queue, the oldest first.
  abbrev pub pending : R → List String
  pending r = reverse (lists r queue)

  -- What happens on the server: the requests that enter the queue by `send_request`, and those that
  -- a worker takes from it, each in order.
  pub data Traffic (r : R) : List String → List String → R → Type 0 where
    idle : Traffic r [] [] r
    sends :
        {sent taken : List String} {s : R} (m : String)
        → Traffic r sent taken s
        → Traffic r (sent ++ m ∷ []) taken (send_request redis queue m s)
    takes :
        {sent taken qs : List String} {m : String} {s t : R}
        → Traffic r sent taken s
        → brpop qs s ≡ some ((queue, m), t)
        → Traffic r sent (taken ++ m ∷ []) t
    -- whatever leaves the queue alone
    elsewhere :
        {sent taken : List String} {s t : R}
        → Traffic r sent taken s
        → lists t queue ≡ lists s queue
        → Traffic r sent taken t

  pending-send_request :
      (m : String) (r : R) → pending (send_request redis queue m r) ≡ pending r ++ m ∷ []
  unfolding send_request
  pending-send_request m r =
      rw (lists-lpush queue m r queue) rw (if_pos (String_discrete queue queue) refl _ _)
        (reverse-cons m (lists r queue))

  pending-brpop :
      (qs : List String) (m : String) (r s : R)
      → brpop qs r ≡ some ((queue, m), s)
      → pending r ≡ m ∷ pending s
  pending-brpop qs m r s e =
      rw (brpop_takes qs r queue m s e).0 (reverse-append (lists s queue) (m ∷ []))

  -- First in, first out: what was taken from the queue, and then what still waits, is what waited
  -- at first, and then what was sent. No request is lost, repeated or overtaken.
  pub fifo :
      {r : R} {sent taken : List String} {s : R}
      → Traffic r sent taken s
      → taken ++ pending s ≡ pending r ++ sent
  fifo idle = sym (append-nil _)
  fifo {taken} (sends {sent} {s} m t) = rw pending-send_request (
      sym (append_assoc taken (pending s) (m ∷ []))
      ∙ ap (λ x. x ++ m ∷ []) (fifo t)
      ∙ append_assoc (pending _) sent (m ∷ []))
  fifo (takes {taken} {qs} {m} {s} {t = u} t e) =
      append_assoc taken (m ∷ []) (pending u)
      ∙ ap (λ x. taken ++ x) (sym (pending-brpop qs m s u e))
      ∙ fifo t
  fifo (elsewhere {taken} t e) = ap (λ x. taken ++ reverse x) e ∙ fifo t
