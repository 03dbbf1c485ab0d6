-- ===== src/Tests/Channels.antt =====
-- core/net.go: MessageReceiver at concrete inputs.
use http_portal.Base.{
  ℕ, ◌≡◌, ◌≢◌, refl, ◌⊎◌, String, none, some, [], ◌∷◌, lookup, delete, insert, nat_eq, arith, eqb,
  if◌then◌else◌,
}
use http_portal.Core.Receiver.{
  Receiver, waiting, handed, new_receiver, prepare_request, send_response, delete_seq, await,
  resume,
}
use http_portal.Core.Receiver.Sequence.{prepare_many, prepare_many-keeps}
use http_portal.Core.Receiver.Delivery.{send_response_cases}

-- A receiver whose Seq is about to wrap around.
abbrev late : Receiver String
late = record { seq = 4294967295; requests = (4294967295, waiting) ∷ [] }

-- A request is prepared, its reader waits, it gets a response, it takes it, and the request ends.
one_request : Receiver String
one_request =
    let (seq, r) = prepare_request new_receiver in
    delete_seq seq (resume seq (send_response seq "done" (await seq r)).1)

one_request_run : one_request ≡ record { seq = 1; requests = [] }
unfolding one_request prepare_request await send_response resume delete_seq lookup delete insert
one_request_run = refl

prepare_request_wraps : (prepare_request late).0 ≡ 0
unfolding prepare_request
prepare_request_wraps = refl

prepare_many-keeps_example :
    (lookup 4294967295 (prepare_many 3 late).requests ≡ some waiting)
    × ((prepare_request (prepare_many 3 late)).0 ≢ 4294967295)
unfolding lookup
prepare_many-keeps_example =
    prepare_many-keeps 3 late 4294967295 waiting refl (omega arith) (omega arith) refl

send_response_cases_example :
    let (e, r') = send_response 4294967295 "done" late in
    ((lookup 4294967295 late.requests ≡ some waiting)
      × (e ≡ none)
      × ((j : ℕ)
          → lookup j r'.requests
            ≡ (if eqb 4294967295 j then some (handed "done") else lookup j late.requests)))
    ⊎ ((lookup 4294967295 late.requests ≢ some waiting) × (e ≢ none) × (r' ≡ late))
send_response_cases_example = send_response_cases 4294967295 "done" late
