-- ===== src/Broker/Callbacks.antt =====
-- The lists of callbacks: registration, removal and the calls of a message.
use oregano.Base.{String, ◌≡◌, ◌≢◌, List, [], ◌∷◌, ◌++◌, arith, ok, All}
use oregano.Broker.{
  Brokered, drop_id, register_event_callback, remove_event_callback, register_transaction_callback,
  remove_transaction_callback,
}

-- No callback of the list has the id.
abbrev pub IsFresh : {C : Type 0} → String → List (String × C) → Type 0
IsFresh id = All (λ f. f.0 ≢ id)

pub drop_id-append :
    {C : Type 0} (id : String) (f : C) (cs : List (String × C))
    → IsFresh id cs
    → drop_id id (cs ++ (id, f) ∷ []) ≡ cs
unfolding drop_id
drop_id-append id f [] n = ground arith
drop_id-append id f ((i, g) ∷ cs) n = ground (arith, drop_id-append id f cs n.1)

-- Removing a callback that was registered under a fresh id gives the broker back as it was.
pub remove-register :
    {C K : Type 0} (id : String) (f : C) (w : Brokered C K)
    → IsFresh id w.broker.event_callbacks
    → IsFresh id w.broker.transaction_callbacks
    → (remove_event_callback id (register_event_callback id f w).1 ≡ (ok tt, w))
      × (remove_transaction_callback id (register_transaction_callback id f w).1 ≡ (ok tt, w))
unfolding register_event_callback remove_event_callback register_transaction_callback
    remove_transaction_callback
remove-register id f w n m = ground (
  arith,
  drop_id-append id f w.broker.event_callbacks n,
  drop_id-append id f w.broker.transaction_callbacks m,
)
