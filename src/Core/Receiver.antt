-- ===== src/Core/Receiver.antt =====
-- core/net.go: MessageReceiver, which hands responses to the goroutines that wait for them.
-- A channel is unbuffered: it is `idle` while its reader does something else, `waiting` while the
-- reader stands in its select, and `handed m` from a send to the reader's next step.
pub mod Sequence
pub mod Delivery
use http_portal.Base.{
  ℕ, ◌+◌, ◌%◌, ◌^◌, Option, none, some, List, [], ◌∷◌, lookup, insert, delete, nat_eq, ◌≡◌, refl,
}
use http_portal.Core.Errors.{Error, opaque}

pub data Channel {ℓ} (M : Type ℓ) : Type ℓ where
  idle waiting : Channel M
  handed : M → Channel M

-- Seq is an int32, kept as its bit pattern; `requests` is the sync.Map.
pub record Receiver {ℓ} (M : Type ℓ) : Type ℓ where
  pub seq : ℕ
  pub requests : List (ℕ × Channel M)

module _ {ℓ} {M : Type ℓ} where
  abbrev pub new_receiver : Receiver M
  new_receiver = record { seq = 0; requests = [] }

  unfoldable pub prepare_request : Receiver M → ℕ × Receiver M
  prepare_request r =
      let s = (r.seq + 1) % 2 ^ 32 in (s, record { seq = s; requests = insert s idle r.requests })

  -- What SendResponse does with the channel that it found, if any.
  unfoldable pub hand_over : ℕ → M → Option (Channel M) → Receiver M → Option Error × Receiver M
  hand_over seq msg (some waiting) r =
      (none, record r { requests = insert seq (handed msg) r.requests })
  hand_over seq msg (some c) r = (some (opaque "resp receiver don't receiving"), r)
  hand_over seq msg none r = (some (opaque "resp has no receiver"), r)

  unfoldable pub send_response : ℕ → M → Receiver M → Option Error × Receiver M
  unfolding hand_over
  send_response seq msg r = hand_over seq msg (lookup seq r.requests) r

  unfoldable pub delete_seq : ℕ → Receiver M → Receiver M
  delete_seq seq r = record r { requests = delete seq r.requests }

  -- The reader's own steps: it enters its select, and it takes what it was handed.
  unfoldable pub await : ℕ → Receiver M → Receiver M
  await seq r = record r { requests = insert seq waiting r.requests }

  unfoldable pub resume : ℕ → Receiver M → Receiver M
  resume seq r = record r { requests = insert seq idle r.requests }
