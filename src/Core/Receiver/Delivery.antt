-- ===== src/Core/Receiver/Delivery.antt =====
-- core/net.go: who gets a response.
use http_portal.Base.{
  ℕ, ◌≡◌, refl, ◌≢◌, ◌⊎◌, inl, inr, Option, none, some, lookup, nat_eq, arith, lookup-insert,
  lookup-delete, eqb, if◌then◌else◌,
}
use http_portal.Core.Errors.{opaque}
use http_portal.Core.Receiver.{
  Receiver, Channel, idle, waiting, handed, send_response, hand_over, delete_seq,
}

module _ {ℓ} {M : Type ℓ} where
  -- SendResponse succeeds exactly when the reader of this number stands in its select: then the
  -- reader, and no other, gets the message. Otherwise it fails, nothing is kept of the message and
  -- no channel changes.
  pub send_response_cases :
      (seq : ℕ) (msg : M) (r : Receiver M)
      → let (e, r') = send_response seq msg r in
        ((lookup seq r.requests ≡ some waiting)
          × (e ≡ none)
          × ((j : ℕ)
              → lookup j r'.requests
                ≡ (if eqb seq j then some (handed msg) else lookup j r.requests)))
        ⊎ ((lookup seq r.requests ≢ some waiting) × (e ≢ none) × (r' ≡ r))
  unfolding send_response
  send_response_cases seq msg r = by_channel (lookup seq r.requests) refl
    where
      by_channel :
          (c : Option (Channel M))
          → lookup seq r.requests ≡ c
          → let (e, r') = hand_over seq msg c r in
            ((c ≡ some waiting)
              × (e ≡ none)
              × ((j : ℕ)
                  → lookup j r'.requests
                    ≡ (if eqb seq j then some (handed msg) else lookup j r.requests)))
            ⊎ ((c ≢ some waiting) × (e ≢ none) × (r' ≡ r))
      by_channel none h = inr (λ q. cc, λ q. cc, refl)
      by_channel (some waiting) h =
          inl (refl, refl, λ j. lookup-insert seq j (handed msg) r.requests)
      by_channel (some idle) h = inr (λ q. cc, λ q. cc, refl)
      by_channel (some (handed m)) h = inr (λ q. cc, λ q. cc, refl)

  -- After DeleteSeq no response finds the number.
  pub send_response-delete_seq :
      (seq : ℕ) (msg : M) (r : Receiver M)
      → send_response seq msg (delete_seq seq r)
        ≡ (some (opaque "resp has no receiver"), delete_seq seq r)
  unfolding send_response delete_seq
  send_response-delete_seq seq msg r = ground (arith, lookup-delete seq seq r.requests)
