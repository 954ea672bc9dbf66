-- ===== src/Interfaces/RefCounts.antt =====
-- What a client may rely on in a broker: it counts the subscriptions to each channel and to each
-- queue, and giving one back neither throws nor touches another count.
use oregano.Base.{ℕ, String, ◌+◌, ◌^◌, ◌≤◌, ◌<◌, ◌≡◌, ite, ok, String_discrete}
use oregano.Interfaces.{IMessageBroker}

-- One at the name itself, nothing elsewhere.
abbrev pub one_at : String → String → ℕ
one_at c j = ite (String_discrete c j) 1 0

-- `size_t`
abbrev pub size_mod : ℕ
size_mod = 2 ^ 64

-- `IsValid` is the implementation's own invariant.
pub record RefCounts {C S : Type 0} (b : IMessageBroker C S) : Type 1 where
  pub IsValid : S → Type 0
  pub channels : S → String → ℕ
  pub queues : S → String → ℕ
  pub subscribe_counts :
      (c : String) (s : S)
      → IsValid s
      → channels s c + 1 < size_mod
      → (j : String) → channels (b.subscribe c s).1 j ≡ channels s j + one_at c j
  pub unsubscribe_counts :
      (c : String) (s : S)
      → IsValid s
      → 1 ≤ channels s c
      → (j : String) → channels (b.unsubscribe c s).1 j + one_at c j ≡ channels s j
  pub listen_counts :
      (c : String) (s : S)
      → IsValid s
      → queues s c + 1 < size_mod
      → (j : String) → queues (b.listen c s).1 j ≡ queues s j + one_at c j
  pub stop_listening_counts :
      (c : String) (s : S)
      → IsValid s
      → 1 ≤ queues s c
      → (j : String) → queues (b.stop_listening c s).1 j + one_at c j ≡ queues s j
  pub unsubscribe_returns : (c : String) (s : S) → (b.unsubscribe c s).0 ≡ ok tt
  pub stop_listening_returns : (c : String) (s : S) → (b.stop_listening c s).0 ≡ ok tt
  pub subscribe_queues :
      (c : String) (s : S) (j : String) → queues (b.subscribe c s).1 j ≡ queues s j
  pub unsubscribe_queues :
      (c : String) (s : S) (j : String) → queues (b.unsubscribe c s).1 j ≡ queues s j
  pub listen_channels :
      (c : String) (s : S) (j : String) → channels (b.listen c s).1 j ≡ channels s j
  pub stop_listening_channels :
      (c : String) (s : S) (j : String) → channels (b.stop_listening c s).1 j ≡ channels s j
  pub subscribe-IsValid :
      (c : String) (s : S) → IsValid s → channels s c + 1 < size_mod → IsValid (b.subscribe c s).1
  pub unsubscribe-IsValid :
      (c : String) (s : S) → IsValid s → 1 ≤ channels s c → IsValid (b.unsubscribe c s).1
  pub listen-IsValid :
      (c : String) (s : S) → IsValid s → queues s c + 1 < size_mod → IsValid (b.listen c s).1
  pub stop_listening-IsValid :
      (c : String) (s : S) → IsValid s → 1 ≤ queues s c → IsValid (b.stop_listening c s).1
