-- ===== src/Portal/Session/Waiting.antt =====
-- portal/portal.go, login and heartbeat, over core/net.go, MessageReceiver: what the select gets of
-- the responses that receive hands over.
use http_portal.Base.{
  ℕ, ◌≡◌, refl, ◌≢◌, inl, inr, Option, none, some, List, [], ◌∷◌, lookup, nat_eq, arith,
  lookup-insert, lookup-delete, eqb, eqb_iff, subst, if◌then◌else◌, Bool-cases,
}
use http_portal.Core.Receiver.{
  Receiver, Channel, idle, waiting, handed, prepare_request, send_response, hand_over, delete_seq,
  await, resume,
}
use http_portal.Core.Receiver.Delivery.{send_response_cases}
use http_portal.Portal.Session.{RpcMessage, Call, deliver, taken, wait_for}

-- No request is pending.
abbrev pub Quiet : Receiver RpcMessage → Type 0
Quiet r = (j : ℕ) → lookup j r.requests ≡ none

-- One request is pending, and its channel is in this state.
abbrev pub Pending : ℕ → Channel RpcMessage → Receiver RpcMessage → Type 0
Pending seq c r = (j : ℕ) → lookup j r.requests ≡ (if eqb seq j then some c else none)

-- The first response to a request.
unfoldable pub first_with : ℕ → List RpcMessage → Option RpcMessage
first_with seq [] = none
first_with seq ((h, m) ∷ more) =
    let rest = first_with seq more in if eqb seq h.seq then some (h, m) else rest

abbrev reached : Option RpcMessage → Channel RpcMessage
reached none = waiting
reached (some m) = handed m

-- A response for which nobody stands in his select changes nothing.
send_response-deaf :
    (seq : ℕ) (m : RpcMessage) (r : Receiver RpcMessage)
    → lookup seq r.requests ≢ some waiting
    → (send_response seq m r).1 ≡ r
send_response-deaf seq m r busy = elim (send_response_cases seq m r) [
  | inl (here, sent, changes) ↦ elim (busy here) [ ]
  | inr (there, failed, same) ↦ same
]

deliver-deaf :
    (ms : List RpcMessage) (seq : ℕ) (c : Channel RpcMessage) (r : Receiver RpcMessage)
    → c ≢ waiting
    → Pending seq c r
    → deliver ms r ≡ r
unfolding deliver
deliver-deaf [] seq c r busy p = refl
deliver-deaf ((h, m) ∷ ms) seq c r busy p =
    rw (send_response-deaf h.seq (h, m) r (λ e. ground (arith, p h.seq)))
      (deliver-deaf ms seq c r busy p)

hand_over-Pending :
    (seq : ℕ) (m : RpcMessage) (r : Receiver RpcMessage)
    → Pending seq waiting r
    → Pending seq (handed m) (send_response seq m r).1
unfolding send_response hand_over
hand_over-Pending seq m r p j =
    ground (arith, p seq, p j, lookup-insert seq j (handed m) r.requests)

deliver-reached :
    (ms : List RpcMessage) (seq : ℕ) (r : Receiver RpcMessage)
    → Pending seq waiting r
    → Pending seq (reached (first_with seq ms)) (deliver ms r)
unfolding deliver first_with
deliver-reached [] seq r p = p
deliver-reached ((h, m) ∷ ms) seq r p = elim (Bool-cases (eqb seq h.seq)) [
  | inl own ↦
      let q : Pending seq (handed (h, m)) (send_response h.seq (h, m) r).1 =
        subst (λ n. Pending seq (handed (h, m)) (send_response n (h, m) r).1)
          ((eqb_iff seq h.seq).0 own) (hand_over-Pending seq (h, m) r p) in
      λ j.
        rw
          (
            deliver,
            deliver-deaf ms seq (handed (h, m)) (send_response h.seq (h, m) r).1 (λ e. cc) q,
            own,
          )
          (q j)
  | inr other ↦ λ j.
      rw (deliver, send_response-deaf h.seq (h, m) r (λ e. ground (arith, p h.seq)), other)
        (deliver-reached ms seq r p j)
]

prepare_request-Pending :
    (r : Receiver RpcMessage) → Quiet r → Pending (prepare_request r).0 idle (prepare_request r).1
unfolding prepare_request
prepare_request-Pending r q j =
    ground (arith, lookup-insert (prepare_request r).0 j idle r.requests, q j)

delete_seq-Quiet :
    (seq : ℕ) (c : Channel RpcMessage) (r : Receiver RpcMessage)
    → Pending seq c r
    → Quiet (delete_seq seq r)
unfolding delete_seq
delete_seq-Quiet seq c r p j = ground (arith, lookup-delete seq j r.requests, p j)

await-Pending :
    (seq : ℕ) (r : Receiver RpcMessage) → Pending seq idle r → Pending seq waiting (await seq r)
unfolding await
await-Pending seq r p j = ground (arith, p j, lookup-insert seq j waiting r.requests)

resume-Pending :
    (seq : ℕ) (c : Channel RpcMessage) (r : Receiver RpcMessage)
    → Pending seq c r
    → Pending seq idle (resume seq r)
unfolding resume
resume-Pending seq c r p j = ground (arith, p j, lookup-insert seq j idle r.requests)

-- The channel that is still there behind the select.
abbrev Kept : ℕ → Receiver RpcMessage → Type 0
Kept seq r = (c : Channel RpcMessage) × Pending seq c r

taken_lem :
    (seq : ℕ) (got : Option RpcMessage) (r : Receiver RpcMessage)
    → Pending seq (reached got) r
    → ((taken seq (lookup seq r.requests) r).0 ≡ got)
      × Kept seq (taken seq (lookup seq r.requests) r).1
unfolding taken
taken_lem seq none r p =
    let here : lookup seq r.requests ≡ some waiting = ground (arith, p seq) in
    rw here (refl, (waiting, p))
taken_lem seq (some m) r p =
    let here : lookup seq r.requests ≡ some (handed m) = ground (arith, p seq) in
    rw here (refl, (idle, resume-Pending seq (handed m) r p))

-- Where no other request is pending, the select of a request gets the first response with its
-- number that comes while it waits, whatever came before and whatever comes with it; and behind
-- DeleteSeq no request is pending.
pub wait_for-first_with :
    (w : Call) (r : Receiver RpcMessage)
    → Quiet r
    → let (seq, prepared) = prepare_request r in
      let (got, after) = wait_for seq w prepared in
      (got ≡ first_with seq w.answers) × Quiet (delete_seq seq after)
unfolding wait_for
wait_for-first_with w r q =
    let (seq, prepared) = prepare_request r in
    let p : Pending seq idle prepared = prepare_request-Pending r q in
    let early : deliver w.early prepared ≡ prepared =
      deliver-deaf w.early seq idle prepared (λ e. cc) p in
    let (got, (c, kept)) =
      taken_lem seq (first_with seq w.answers) (deliver w.answers (await seq prepared))
        (deliver-reached w.answers seq (await seq prepared) (await-Pending seq prepared p)) in
    rw early (got, delete_seq-Quiet seq c _ kept)

-- A request that is not sent leaves none pending either.
pub prepare_request-delete_seq :
    (r : Receiver RpcMessage)
    → Quiet r
    → Quiet (delete_seq (prepare_request r).0 (prepare_request r).1)
prepare_request-delete_seq r q = delete_seq-Quiet _ idle _ (prepare_request-Pending r q)
