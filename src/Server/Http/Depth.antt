-- ===== src/Server/Http/Depth.antt =====
-- portal_server/http_server.go: what becomes of the headers of the portals themselves.
use text.Mathlib.Text.{starts_with}
use http_portal.Base.{
  ℕ, zero, suc, ◌+◌, ◌≤◌, ◌<◌, ◌∙◌, Bool, ltb, ascii, header_get, ◌≡◌, ◌≢◌, refl, ◌⊎◌, inl, inr,
  String, true, false, Option, none, some, List, [], ◌∷◌, ◌++◌, string_eq, text_eq, ◌==◌,
  if◌then◌else◌, Text, arith, subst, Bool-cases, same_text,
}
use http_portal.Core.Errors.{Error}
use http_portal.Core.Messages.{HeaderField, HttpRequest}
use http_portal.Server.Http.Number.{ℤ, pos, negsuc, atoi, itoa}
use http_portal.Server.Http.{
  succ, too_deep, Request, BodyRead, no_body, failed, complete, is_portal, other_fields, field,
  Level, over, unknown, next, refused, depth, depth_of, request_fields, ready, as_message,
  check_depth, prepare_body, prepare, portal_header_deep, portal_header_host,
}

-- The fields of a message whose key has the prefix of the portals, and the others.
abbrev pub is_marked : String → Bool
is_marked key = starts_with key "Portal-"

unfoldable pub portal_fields : List HeaderField → List HeaderField
portal_fields [] = []
portal_fields (f ∷ fs) = if is_marked f.key then f ∷ portal_fields fs else portal_fields fs

abbrev pub as_pair : HeaderField → String × List Text
as_pair f = (f.key, f.value)

unfoldable pub plain_pairs : List HeaderField → List (String × List Text)
plain_pairs [] = []
plain_pairs (f ∷ fs) = if is_marked f.key then plain_pairs fs else as_pair f ∷ plain_pairs fs

-- A header without the keys that have the prefix.
unfoldable pub unmarked : List (String × List Text) → List (String × List Text)
unmarked [] = []
unmarked ((key, values) ∷ more) =
    if is_marked key then unmarked more else (key, values) ∷ unmarked more

-- Where a browser's field may have been taken over.
portal_fields-other_fields :
    (h : List (String × List Text)) (fs : List HeaderField)
    → portal_fields (other_fields h ++ fs) ≡ portal_fields fs
unfolding portal_fields other_fields is_portal
portal_fields-other_fields [] fs = refl
portal_fields-other_fields ((key, values) ∷ more) fs =
    ground (arith, portal_fields-other_fields more fs)

plain_pairs-other_fields :
    (h : List (String × List Text)) (fs : List HeaderField)
    → plain_pairs fs ≡ []
    → plain_pairs (other_fields h ++ fs) ≡ unmarked h
unfolding plain_pairs other_fields unmarked is_portal
plain_pairs-other_fields [] fs e = e
plain_pairs-other_fields ((key, values) ∷ more) fs e =
    ground (arith, plain_pairs-other_fields more fs e)

-- The depth d may go on as the text v.
abbrev pub Deeper : ℤ → Text → Type 0
Deeper (pos n) v = (n ≤ 3) × (v ≡ itoa (pos (n + 1)))
Deeper (negsuc zero) v = v ≡ itoa (pos 0)
Deeper (negsuc (suc n)) v = v ≡ itoa (negsuc n)

-- The depth that a message carries on.
abbrev pub Counted : Request → Text → Type 0
Counted r v =
    (((d : ℤ) × (atoi (header_get "Portal-Deep" r.header) ≡ some d)
        × ((header_get "Portal-Host" r.header == r.host) ≡ false)
        × Deeper d v)
      ⊎ (atoi (header_get "Portal-Deep" r.header) ≡ none) × (v ≡ ascii "1"))

-- A request that is over the limit: its depth is above 3, or the last portal got it for the same
-- host.
abbrev pub Stopped : Request → Type 0
Stopped r =
    (d : ℤ) × (atoi (header_get "Portal-Deep" r.header) ≡ some d)
    × (((n : ℕ) × (d ≡ pos n) × (3 < n)) ⊎ ((header_get "Portal-Host" r.header == r.host) ≡ true))

-- What the message of a request holds of the portals' headers, and of the others.
abbrev pub Marked : Request → List HeaderField → Type 0
Marked r fs =
    (v : Text) × (portal_fields fs
      ≡ record { key = "Portal-Deep"; value = v ∷ [] }
        ∷ record { key = "Portal-Host"; value = r.host ∷ [] }
        ∷ [])
    × (plain_pairs fs ≡ unmarked r.header)
    × Counted r v

too_deep_lem :
    (d : ℤ)
    → ((too_deep d ≡ true) × (n : ℕ) × (d ≡ pos n) × (3 < n))
      ⊎ ((too_deep d ≡ false) × Deeper d (itoa (succ d)))
unfolding too_deep succ
too_deep_lem (pos n) = elim (Bool-cases (ltb 3 n)) [
  | inl high ↦ inl (high, n, refl, ground arith)
  | inr low ↦ inr (low, (ground arith, refl))
]
too_deep_lem (negsuc zero) = inr (refl, refl)
too_deep_lem (negsuc (suc n)) = inr (refl, refl)

atoi_empty : (t : Text) → (t == []) ≡ true → atoi t ≡ none
unfolding atoi same_text
atoi_empty [] e = refl
atoi_empty (c ∷ t) e = grind arith

depth_lem :
    (r : Request)
    → ((depth r ≡ over) × Stopped r)
      ⊎ ((depth r ≡ unknown) × (atoi (header_get portal_header_deep r.header) ≡ none))
      ⊎ ((d : ℤ) × (depth r ≡ next (succ d)) × Counted r (itoa (succ d)))
unfolding depth depth_of
depth_lem r = elim (Bool-cases (header_get portal_header_deep r.header == [])) [
  | inl empty ↦ inr (inl (ground arith, atoi_empty (header_get portal_header_deep r.header) empty))
  | inr full ↦ by_atoi full (atoi (header_get portal_header_deep r.header)) refl
]
  where
    from_elsewhere :
        (header_get portal_header_deep r.header == []) ≡ false
        → (d : ℤ) → atoi (header_get portal_header_deep r.header) ≡ some d
        → too_deep d ≡ false
        → Deeper d (itoa (succ d))
        → ((depth r ≡ over) × Stopped r)
          ⊎ ((depth r ≡ unknown) × (atoi (header_get portal_header_deep r.header) ≡ none))
          ⊎ ((d : ℤ) × (depth r ≡ next (succ d)) × Counted r (itoa (succ d)))
    from_elsewhere full d e fine deeper =
        elim (Bool-cases (header_get portal_header_host r.header == r.host)) [
          | inl here ↦ inl (ground arith, (d, e, inr here))
          | inr other ↦ inr (inr (d, ground arith, inl (d, e, other, deeper)))
        ]

    by_atoi :
        (header_get portal_header_deep r.header == []) ≡ false
        → (o : Option ℤ) → atoi (header_get portal_header_deep r.header) ≡ o
        → ((depth r ≡ over) × Stopped r)
          ⊎ ((depth r ≡ unknown) × (atoi (header_get portal_header_deep r.header) ≡ none))
          ⊎ ((d : ℤ) × (depth r ≡ next (succ d)) × Counted r (itoa (succ d)))
    by_atoi full none e = inr (inl (ground arith, e))
    by_atoi full (some d) e = elim (too_deep_lem d) [
      | inl (deep, n, at, large) ↦ inl (ground arith, (d, e, inl (n, at, large)))
      | inr (fine, deeper) ↦ from_elsewhere full d e fine deeper
    ]

next_fields_lem :
    (r : Request) (v : Text)
    → Counted r v
    → Marked r
        (field portal_header_deep v ∷ other_fields r.header ++ field portal_header_host r.host ∷ [])
unfolding portal_fields plain_pairs
next_fields_lem r v c = (
  v,
  ground (arith, portal_fields-other_fields r.header (field portal_header_host r.host ∷ [])),
  plain_pairs-other_fields r.header (field portal_header_host r.host ∷ []) refl,
  c,
)

new_fields_lem :
    (r : Request)
    → Counted r (itoa (pos 1))
    → Marked r (
        other_fields r.header
        ++ field portal_header_deep (itoa (pos 1)) ∷ field portal_header_host r.host ∷ [])
unfolding portal_fields plain_pairs
new_fields_lem r c = (
  itoa (pos 1),
  portal_fields-other_fields r.header
      (field portal_header_deep (itoa (pos 1)) ∷ field portal_header_host r.host ∷ []),
  plain_pairs-other_fields r.header
      (field portal_header_deep (itoa (pos 1)) ∷ field portal_header_host r.host ∷ []) refl,
  c,
)

checked :
    (l : Level) (r : Request) (q : HttpRequest)
    → check_depth l r ≡ ready q
    → (l ≢ over) × (request_fields l r ≡ q.header)
unfolding check_depth as_message
checked over r q e = cc
checked unknown r q e = (λ o. cc, grind arith)
checked (next d) r q e = (λ o. cc, grind arith)

prepared :
    (b : BodyRead) (r : Request) (q : HttpRequest)
    → prepare_body b r ≡ ready q
    → check_depth (depth r) r ≡ ready q
unfolding prepare_body
prepared no_body r q e = e
prepared (complete bs) r q e = e
prepared (failed x) r q e = cc

-- The message that serveHTTP makes of a request.
pub prepare-Marked : (r : Request) (q : HttpRequest) → prepare r ≡ ready q → Marked r q.header
unfolding prepare request_fields itoa
prepare-Marked r q e =
    let (going, fields) = checked (depth r) r q (prepared r.body r q e) in
    subst (Marked r) fields (elim (depth_lem r) [
      | inl (stop, why) ↦ absurd (going stop)
      | inr (inl (new, fails)) ↦ rw new (new_fields_lem r (inr (fails, refl)))
      | inr (inr (d, more, counted)) ↦ rw more (next_fields_lem r (itoa (succ d)) counted)
    ])

body_read :
    (b : BodyRead) (r : Request)
    → ((e : Error) → b ≢ failed e)
    → prepare_body b r ≡ check_depth (depth r) r
unfolding prepare_body
body_read no_body r whole = refl
body_read (complete bs) r whole = refl
body_read (failed e) r whole = absurd (whole e refl)

-- A request whose body could be read, whatever headers of the portals it brings. It is refused by
-- "over max portal deep" only where its Portal-Deep is a number and either that is above 3 or its
-- Portal-Host is the request's own host. Otherwise a message is made of it, with exactly one
-- Portal-Deep and one Portal-Host, each with one value: a depth that is a number, which then is at
-- most 3, goes on as one more, and any other as 1; the host is the request's own. All headers without
-- the prefix of the portals go on with their values and in their order.
pub prepare_cases :
    (r : Request)
    → ((e : Error) → r.body ≢ failed e)
    → ((q : HttpRequest) × (prepare r ≡ ready q) × Marked r q.header)
      ⊎ (prepare r ≡ refused "over max portal deep") × Stopped r
unfolding prepare check_depth
prepare_cases r whole =
    let same = body_read r.body r whole in
    elim (depth_lem r) [
      | inl (stop, why) ↦ inr (same ∙ rw stop refl, why)
      | inr (inl (new, fails)) ↦
          let e = same ∙ rw new refl in inl (as_message unknown r, e, prepare-Marked r _ e)
      | inr (inr (d, more, counted)) ↦
          let e = same ∙ rw more refl in inl (as_message (next (succ d)) r, e, prepare-Marked r _ e)
    ]

-- A message is made of the request, at a level that was let through.
pub prepare-as_message :
    (r : Request) (q : HttpRequest)
    → prepare r ≡ ready q
    → (l : Level) × (l ≢ over) × (as_message l r ≡ q)
unfolding prepare check_depth
prepare-as_message r q e = by_level (depth r) (prepared r.body r q e)
  where
    by_level :
        (l : Level) → check_depth l r ≡ ready q → (d : Level) × (d ≢ over) × (as_message d r ≡ q)
    by_level over e' = cc
    by_level unknown e' = (unknown, λ o. cc, grind arith)
    by_level (next d) e' = (next d, λ o. cc, grind arith)
