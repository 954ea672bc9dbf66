-- ===== src/Connector/Redis.antt =====
-- What the connector uses of a Redis server, by the client of redis++. Both lie outside the
-- repository: their operations are parameters, with the behaviour that Redis documents for LPUSH,
-- RPUSH and BRPOP, and for PUBLISH, SUBSCRIBE and UNSUBSCRIBE.
use oregano.Base.{
  Bool, true, false, String, ◌≡◌, ◌≢◌, Option, none, some, List, [], ◌∷◌, ◌++◌, ite,
  String_discrete, All,
}

pub record RedisLists (R : Type 0) : Type 0 where
  pub lists : R → String → List String
  pub lpush : String → String → R → R
  pub rpush : String → String → R → R
  -- `none` while the call blocks; otherwise the list and the element that it took
  pub brpop : List String → R → Option ((String × String) × R)
  pub lists-lpush :
      (q m : String) (r : R) (j : String)
      → lists (lpush q m r) j ≡ ite (String_discrete q j) (m ∷ lists r j) (lists r j)
  pub lists-rpush :
      (q m : String) (r : R) (j : String)
      → lists (rpush q m r) j ≡ ite (String_discrete q j) (lists r j ++ m ∷ []) (lists r j)
  pub brpop_blocks : (qs : List String) (r : R) → brpop qs r ≡ none → All (λ q. lists r q ≡ []) qs
  pub brpop_takes :
      (qs : List String) (r : R) (q m : String) (r' : R)
      → brpop qs r ≡ some ((q, m), r')
      → (lists r q ≡ lists r' q ++ m ∷ []) × ((j : String) → j ≢ q → lists r' j ≡ lists r j)

-- `subscribed` is the set of the channels of the connection that sw::redis::Subscriber holds.
pub record RedisChannels (P : Type 0) : Type 0 where
  pub subscribed : P → String → Bool
  pub publish : String → String → P → P
  pub subscribe : String → P → P
  pub unsubscribe : String → P → P
  pub subscribed-publish :
      (c m : String) (p : P) (j : String) → subscribed (publish c m p) j ≡ subscribed p j
  pub subscribed-subscribe :
      (c : String) (p : P) (j : String)
      → subscribed (subscribe c p) j ≡ ite (String_discrete c j) true (subscribed p j)
  pub subscribed-unsubscribe :
      (c : String) (p : P) (j : String)
      → subscribed (unsubscribe c p) j ≡ ite (String_discrete c j) false (subscribed p j)
