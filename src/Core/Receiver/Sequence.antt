-- ===== src/Core/Receiver/Sequence.antt =====
-- core/net.go: the numbers that PrepareRequest gives out.
use http_portal.Base.{
  ℕ, zero, suc, ◌+◌, ◌%◌, ◌^◌, ◌<◌, ◌≡◌, ◌≢◌, some, lookup, nat_eq, arith, lookup-insert,
}
use http_portal.Core.Receiver.{Receiver, Channel, idle, prepare_request}

module _ {ℓ} {M : Type ℓ} where
  -- n requests, one after the other.
  unfoldable pub prepare_many : ℕ → Receiver M → Receiver M
  prepare_many zero r = r
  prepare_many (suc n) r = (prepare_request (prepare_many n r)).1

  seq-prepare_many :
      (n : ℕ) (r : Receiver M) → r.seq < 2 ^ 32 → (prepare_many n r).seq ≡ (r.seq + n) % 2 ^ 32
  unfolding prepare_many prepare_request
  seq-prepare_many zero r h = omega arith
  seq-prepare_many (suc n) r h = omega (arith, seq-prepare_many n r h)

  -- The request that was prepared first keeps its channel, in whatever state the channel is, while
  -- fewer than 2 ^ 32 - 1 others are prepared after it, although Seq wraps around; and none of those
  -- has its number.
  pub prepare_many-keeps :
      (n : ℕ) (r : Receiver M) (s : ℕ) (c : Channel M)
      → r.seq ≡ s
      → s < 2 ^ 32
      → n + 1 < 2 ^ 32
      → lookup s r.requests ≡ some c
      → (lookup s (prepare_many n r).requests ≡ some c)
        × ((prepare_request (prepare_many n r)).0 ≢ s)
  unfolding prepare_many prepare_request
  prepare_many-keeps zero r s c e h b found = (found, λ q. omega arith)
  prepare_many-keeps (suc n) r s c e h b found =
      let ih = prepare_many-keeps n r s c e h (omega arith) found in
      let next = ((prepare_many n r).seq + 1) % 2 ^ 32 in
      (
        ground (arith, lookup-insert next s idle (prepare_many n r).requests),
        λ q. omega (arith, seq-prepare_many n r (omega arith)),
      )
