-- ===== src/Portal/Request/Fields.antt =====
-- portal_server/http_server.go, serveHTTP, and portal/portal.go, parseHttpRequest: the header of a
-- message, put into a map again.
use http_portal.Base.{
  IsMap, ◌≡◌, ◌≢◌, refl, All, sym, ap, ◌∙◌, inl, inr, String, true, false, Option, none, some, List,
  [], ◌∷◌, ◌++◌, lookup, insert, string_eq, text_eq, ◌==◌, Text, Header, arith, lookup-insert,
  Bool-cases,
}
use text.Mathlib.TextEquality.{eq_iff}
use text.Mathlib.TextPositions.{eq_refl}
use http_portal.Core.Messages.{HeaderField}
use http_portal.Server.Http.{
  Request as BrowserRequest, Level, over, unknown, next, other_fields, request_fields, field,
  is_portal, portal_header_deep, portal_header_host,
}
use http_portal.Server.Http.Number.{itoa, pos}
use http_portal.Portal.Request.{add_fields}

or_old : Option (List Text) → Option (List Text) → Option (List Text)
or_old (some v) old = some v
or_old none old = old

add_fields-append :
    (fs gs : List HeaderField) (h : Header)
    → add_fields (fs ++ gs) h ≡ add_fields gs (add_fields fs h)
unfolding add_fields
add_fields-append [] gs h = refl
add_fields-append (f ∷ fs) gs h = add_fields-append fs gs (insert f.key f.value h)

-- The lines that the server passes on, put into a map that has some already.
lookup-other_fields :
    (hs : Header) (key : String) (h : Header)
    → IsMap hs
    → is_portal key ≡ false
    → lookup key (add_fields (other_fields hs) h) ≡ or_old (lookup key hs) (lookup key h)
unfolding other_fields add_fields lookup or_old
lookup-other_fields [] key h m other = refl
lookup-other_fields ((k, v) ∷ more) key h (new, m) other = elim (Bool-cases (is_portal k)) [
  | inl portal ↦ ground (arith, lookup-other_fields more key h m other, eq_iff k key)
  | inr plain ↦ ground (
    arith,
    lookup-other_fields more key (insert k v h) m other,
    lookup-insert k key v h,
    eq_iff k key,
  )
]

portal_key :
    (mark key : String) → is_portal mark ≡ true → is_portal key ≡ false → (mark == key) ≡ false
portal_key mark key own other = elim (Bool-cases (mark == key)) [
  | inl same ↦ absurd (true_false (sym own ∙ ap is_portal ((eq_iff mark key).0 same) ∙ other))
  | inr differs ↦ differs
]
  where
    true_false : true ≢ false
    true_false e = grind arith

or_old-none : (o : Option (List Text)) → or_old o none ≡ o
unfolding or_old
or_old-none none = refl
or_old-none (some v) = refl

abbrev IsMark : HeaderField → Type 0
IsMark f = is_portal f.key ≡ true

module _ (key : String) (other : is_portal key ≡ false) where
  -- Lines of the portals' own leave the others as they are.
  lookup-marks :
      (fs : List HeaderField) (h : Header)
      → All IsMark fs
      → lookup key (add_fields fs h) ≡ lookup key h
  unfolding add_fields
  lookup-marks [] h own = refl
  lookup-marks (f ∷ fs) h (own, more) = ground (
    arith,
    lookup-marks fs (insert f.key f.value h) more,
    lookup-insert f.key key f.value h,
    portal_key f.key key own other,
  )

  lookup-plain :
      (hs : Header) (fs : List HeaderField) (h : Header)
      → IsMap hs
      → All IsMark fs
      → lookup key h ≡ none
      → lookup key (add_fields (other_fields hs ++ fs) h) ≡ lookup key hs
  lookup-plain hs fs h m own new =
      ap (lookup key) (add_fields-append (other_fields hs) fs h)
      ∙ lookup-marks fs (add_fields (other_fields hs) h) own
      ∙ lookup-other_fields hs key h m other
      ∙ ap (or_old (lookup key hs)) new
      ∙ or_old-none (lookup key hs)

  pub lookup-request_fields :
      (l : Level) (r : BrowserRequest)
      → IsMap r.header
      → lookup key (add_fields (request_fields l r) []) ≡ lookup key r.header
  unfolding request_fields is_portal lookup add_fields
  lookup-request_fields (next d) r m =
      lookup-plain r.header _ (insert portal_header_deep (itoa d ∷ []) []) m (refl, tt)
        (lookup-marks (field portal_header_deep (itoa d) ∷ []) [] (refl, tt))
  lookup-request_fields over r m = lookup-plain r.header _ [] m (refl, (refl, tt)) refl
  lookup-request_fields unknown r m = lookup-plain r.header _ [] m (refl, (refl, tt)) refl

lookup-own : (key : String) (v : List Text) (h : Header) → lookup key (insert key v h) ≡ some v
lookup-own key v h = ground (arith, lookup-insert key key v h, eq_refl key)

host_last :
    (r : BrowserRequest)
    → lookup portal_header_host (
        add_fields
          (other_fields r.header
            ++ field portal_header_deep (itoa (pos 1)) ∷ field portal_header_host r.host ∷ [])
          [])
      ≡ some (r.host ∷ [])
unfolding add_fields
host_last r =
    ap (lookup portal_header_host) (
      add_fields-append (other_fields r.header)
        (field portal_header_deep (itoa (pos 1)) ∷ field portal_header_host r.host ∷ []) [])
    ∙ lookup-own portal_header_host (r.host ∷ []) _

-- The host is the last line.
pub lookup-host :
    (l : Level) (r : BrowserRequest)
    → lookup portal_header_host (add_fields (request_fields l r) []) ≡ some (r.host ∷ [])
unfolding request_fields add_fields
lookup-host (next d) r =
    ap (lookup portal_header_host) (
      add_fields-append (other_fields r.header) (field portal_header_host r.host ∷ [])
        (insert portal_header_deep (itoa d ∷ []) []))
    ∙ lookup-own portal_header_host (r.host ∷ []) _
lookup-host over r = host_last r
lookup-host unknown r = host_last r
