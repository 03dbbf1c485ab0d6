-- ===== src/Server/Http/Chain.antt =====
-- portal_server/http_server.go: a request that goes from portal to portal.
use text.Mathlib.TextEquality.{eq_iff}
use http_portal.Base.{
  header_get, ℕ, zero, suc, ◌+◌, ◌≤◌, ◌≡◌, ◌≢◌, refl, sym, ◌∙◌, ap, inl, inr, String, true, false,
  none, some, List, [], ◌∷◌, map, lookup, string_eq, text_eq, ◌==◌, Text, arith, subst, Bool-cases,
  length,
}
use http_portal.Core.Messages.{HeaderField, HttpRequest}
use http_portal.Server.Http.Number.{ℤ, pos, atoi, itoa}
use http_portal.Server.Http.{
  Request, complete, field, Prepared, refused, ready, prepare, portal_header_deep,
}
use http_portal.Server.Http.Depth.{
  is_marked, as_pair, portal_fields, Deeper, Counted, prepare-Marked,
}

-- The request that the next portal gets, for some host: method, headers and body as in the message.
abbrev pub resend : Text → HttpRequest → Request
resend host q = record {
  method = q.method;
  url = q.url;
  proto = q.req_proto;
  host = host;
  remote_addr = q.remote_addr;
  header = map as_pair q.header;
  body = complete q.body;
}

-- What becomes of a request at the last of the portals behind this one, each with the host for
-- which it gets the request; a portal that refuses ends the way.
unfoldable pub travel : Prepared → List Text → Prepared
travel (refused m) hosts = refused m
travel (ready q) [] = ready q
travel (ready q) (host ∷ hosts) = travel (prepare (resend host q)) hosts

not_deep_key : (key : String) → is_marked key ≡ false → (key == portal_header_deep) ≡ false
not_deep_key key other = elim (Bool-cases (key == portal_header_deep)) [
  | inl same ↦
      absurd (true_false (ap is_marked (sym ((eq_iff key portal_header_deep).0 same)) ∙ other))
  | inr differs ↦ differs
]
  where
    true_false : true ≢ false
    true_false e = grind arith

first_field :
    (f : HeaderField) (fs : List HeaderField) (g : HeaderField) (gs : List HeaderField)
    → f ∷ fs ≡ g ∷ gs
    → f ≡ g
first_field f fs g gs e = grind arith

header_get-resend :
    (fs : List HeaderField) (v : Text) (rest : List HeaderField)
    → portal_fields fs ≡ field portal_header_deep v ∷ rest
    → header_get portal_header_deep (map as_pair fs) ≡ v
unfolding portal_fields header_get lookup
header_get-resend [] v rest e = cc
header_get-resend (f ∷ fs) v rest e = elim (Bool-cases (is_marked f.key)) [
  | inl ours ↦
      subst (λ g. header_get portal_header_deep (as_pair g ∷ map as_pair fs) ≡ v)
        (sym (first_field f (portal_fields fs) (field portal_header_deep v) rest (ground arith)))
        refl
  | inr other ↦ ground (arith, header_get-resend fs v rest, not_deep_key f.key other)
]

atoi-itoa_small : (k : ℕ) → k ≤ 4 → atoi (itoa (pos k)) ≡ some (pos k)
unfolding atoi itoa
atoi-itoa_small zero h = refl
atoi-itoa_small (suc zero) h = refl
atoi-itoa_small (suc (suc zero)) h = refl
atoi-itoa_small (suc (suc (suc zero))) h = refl
atoi-itoa_small (suc (suc (suc (suc zero)))) h = refl
atoi-itoa_small (suc (suc (suc (suc (suc k))))) h = absurd (omega arith)

arrives_deeper :
    (k : ℕ) (r : Request) (q : HttpRequest) (host : Text)
    → k ≤ 4
    → header_get portal_header_deep r.header ≡ itoa (pos k)
    → prepare r ≡ ready q
    → (k ≤ 3) × (header_get portal_header_deep (resend host q).header ≡ itoa (pos (k + 1)))
arrives_deeper k r q host low here e =
    let (v, ours, plain, counted) = prepare-Marked r q e in
    let parsed = ap atoi here ∙ atoi-itoa_small k low in
    let sent = header_get-resend q.header v _ ours in
    elim counted [
      | inl (d, parses, other, deeper) ↦
          let (fine, more) =
            subst (λ x. Deeper x v) (same_number d k (sym parses ∙ parsed)) deeper in
          (fine, sent ∙ more)
      | inr (fails, new) ↦ absurd (never (pos k) (sym fails ∙ parsed))
    ]
  where
    same_number : (d : ℤ) (k : ℕ) → some d ≡ some (pos k) → d ≡ pos k
    same_number d k e = grind arith

    never : (d : ℤ) → none ≢ some d
    never d e = grind arith

stops :
    (n k : ℕ) (hosts : List Text) (r : Request) (p : Prepared)
    → prepare r ≡ p
    → k + n ≡ 4
    → n ≤ length hosts
    → header_get portal_header_deep r.header ≡ itoa (pos k)
    → (m : String) × (travel p hosts ≡ refused m)
unfolding travel
stops n k hosts r (refused m) e sum long here = (m, refl)
stops zero k hosts r (ready q) e sum long here =
    let deeper = arrives_deeper k r q [] (omega arith) here e in absurd (omega arith)
stops (suc n) k [] r (ready q) e sum long here = absurd (omega arith)
stops (suc n) k (host ∷ hosts) r (ready q) e sum long here =
    stops n (k + 1) hosts (resend host q) (prepare (resend host q)) refl (omega arith) (omega arith)
      (arrives_deeper k r q host (omega arith) here e).1

first_depth :
    (r : Request) (v : Text)
    → atoi (header_get portal_header_deep r.header) ≡ none
    → Counted r v
    → v ≡ itoa (pos 1)
unfolding itoa
first_depth r v new (inl (d, parses, low, more)) = absurd (no_number d (sym new ∙ parses))
  where
    no_number : (d : ℤ) → none ≢ some d
    no_number d e = grind arith
first_depth r v new (inr (fails, one)) = one

-- A request that brings no depth is refused by the fifth portal on its way at the latest, whatever
-- the portals' hosts are, if the agents pass its method, headers and body on unchanged.
pub travel_refused :
    (r : Request) (hosts : List Text)
    → atoi (header_get portal_header_deep r.header) ≡ none
    → 4 ≤ length hosts
    → (m : String) × (travel (prepare r) hosts ≡ refused m)
unfolding travel
travel_refused r hosts new long = by_first (prepare r) refl hosts long
  where
    by_first :
        (p : Prepared)
        → prepare r ≡ p
        → (hosts : List Text) → 4 ≤ length hosts
        → (m : String) × (travel p hosts ≡ refused m)
    by_first (refused m) e hosts long = (m, refl)
    by_first (ready q) e [] long = absurd (omega arith)
    by_first (ready q) e (host ∷ hosts) long =
        let (v, ours, plain, counted) = prepare-Marked r q e in
        stops 3 1 hosts (resend host q) (prepare (resend host q)) refl refl (omega arith)
          (header_get-resend q.header v _ ours ∙ first_depth r v new counted)
