-- ===== src/Portal/Request/Malformed.antt =====
-- portal/portal.go: the errors of parseHttpRequest have a text.
use Prim.Native.String.{◌++◌}
use http_portal.Base.{
  ℕ, ◌≡◌, refl, subst, ◌⊎◌, inl, inr, Bool, false, Option, none, some, Header, string_eq, ◌==◌,
}
use http_portal.Core.Errors.{Error, error_text}
use http_portal.Core.Errors.Texts.{append-nonempty, append-nonempty_end}
use http_portal.Core.Messages.{HttpRequest}
use http_portal.Portal.Request.{
  Parsers, Url, Parsed, parsed, malformed, parse_http_request, with_version, with_url,
}

abbrev IsSpoken : Parsed → Type 0
IsSpoken (malformed e) = (error_text e == "") ≡ false
IsSpoken (parsed r ws) = Unit

with_url-IsSpoken :
    (ws : Bool) (h : Header) (v : ℕ × ℕ) (u : Error ⊎ Url) (q : HttpRequest)
    → IsSpoken (with_url ws h v u q)
unfolding with_url error_text
with_url-IsSpoken ws h v (inl e) q = append-nonempty "parse uri error" (": " ++ error_text e) refl
with_url-IsSpoken ws h v (inr u) q = tt

module _ (parsers : Parsers) where
  with_version-IsSpoken :
      (ws : Bool) (h : Header) (v : Option (ℕ × ℕ)) (q : HttpRequest)
      → IsSpoken (with_version parsers ws h v q)
  unfolding with_version error_text
  with_version-IsSpoken ws h none q = append-nonempty_end q.req_proto " malformed HTTP version" refl
  with_version-IsSpoken ws h (some v) q = with_url-IsSpoken ws h v _ q

  -- The error that comes back is not the empty text, which would mean none.
  pub malformed-nonempty :
      (q : HttpRequest) (e : Error)
      → parse_http_request parsers q ≡ malformed e
      → (error_text e == "") ≡ false
  unfolding parse_http_request
  malformed-nonempty q e fails = subst IsSpoken fails (with_version-IsSpoken _ _ _ q)
