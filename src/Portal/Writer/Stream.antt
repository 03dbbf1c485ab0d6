-- ===== src/Portal/Writer/Stream.antt =====
-- portal/portal.go: the messages that HttpResponseWriter makes of one response.
use http_portal.Base.{
  ℕ, ◌≡◌, refl, sym, ap, ◌∙◌, String, Bool, true, false, not, Option, none, some, List, [], ◌∷◌,
  ◌++◌, append_assoc, append-nil, if◌then◌else◌, arith, map, Text, All, All-append,
}
use http_portal.Core.Errors.{Error}
use http_portal.Core.Messages.{HttpResponse}
use http_portal.Portal.Writer.{Writer, mix, flush, deliver, Reader, piece, end_of_read, to_field}

-- What a reader gives before its first error, and that error as ReadFrom returns it.
unfoldable pub bytes_of : Reader → List ℕ
bytes_of [] = []
bytes_of (piece bs none ∷ more) = bs ++ bytes_of more
bytes_of (piece bs (some e) ∷ more) = bs

unfoldable pub error_of : Reader → Option Error
error_of [] = none
error_of (piece bs none ∷ more) = error_of more
error_of (piece bs (some e) ∷ more) = end_of_read e

abbrev pub bodies : List HttpResponse → List ℕ
bodies [] = []
bodies (r ∷ rs) = r.body ++ bodies rs

bodies-append : (rs ss : List HttpResponse) → bodies (rs ++ ss) ≡ bodies rs ++ bodies ss
bodies-append [] ss = refl
bodies-append (r ∷ rs) ss =
    rw (bodies-append rs ss) (sym (append_assoc r.body (bodies rs) (bodies ss)))

-- All bytes that the writer has been given: sent, or still in the buffer.
abbrev pub taken : Writer → List ℕ
taken w = bodies w.sent ++ w.buf

-- A message that only carries on.
pub record IsLater (finish : Bool) (r : HttpResponse) : Type 0 where
  pub no_status : r.status ≡ 0
  pub no_header : r.header ≡ []
  pub finish_flag : r.not_finish ≡ not finish

pub record IsFirst (status : ℕ) (header : List (String × List Text)) (finish : Bool)
    (r : HttpResponse) : Type 0 where
  pub status_sent : r.status ≡ status
  pub header_sent : r.header ≡ map to_field header
  pub finish_flag : r.not_finish ≡ not finish

-- The messages of a response that is not over: none yet, or the one with status and header and
-- then ones that carry on.
abbrev pub Opened : ℕ → List (String × List Text) → Bool → HttpResponse → List HttpResponse → Type 0
Opened status header first_send resp [] =
    (first_send ≡ true) × (resp.status ≡ status) × (resp.header ≡ [])
Opened status header first_send resp (r ∷ rs) =
    (first_send ≡ false) × IsFirst status header false r × All (IsLater false) rs

-- The messages of a response that is over.
abbrev pub Ending : List HttpResponse → Type 0
Ending [] = ⊥
Ending (r ∷ []) = IsLater true r
Ending (r ∷ s ∷ rs) = IsLater false r × Ending (s ∷ rs)

abbrev pub IsResponse : ℕ → List (String × List Text) → List HttpResponse → Type 0
IsResponse status header [] = ⊥
IsResponse status header (r ∷ []) = IsFirst status header true r
IsResponse status header (r ∷ s ∷ rs) = IsFirst status header false r × Ending (s ∷ rs)

abbrev pub next_message : Bool → Writer → HttpResponse
next_message finish w =
    if w.first_send
    then record (mix w) { not_finish = not finish }
    else record { status = 0; header = []; body = w.buf; not_finish = not finish }

pub flush_answered :
    (finish : Bool) (w : Writer)
    → w.answers ≡ []
    → let r = flush finish w in
      (r.0 ≡ none)
      × (r.1.sent ≡ w.sent ++ next_message finish w ∷ [])
      × (r.1.buf ≡ [])
      × (r.1.answers ≡ [])
      × (r.1.header ≡ w.header)
      × (r.1.first_send ≡ false)
      × (r.1.capacity ≡ w.capacity)
unfolding flush deliver mix
flush_answered finish w h = ground arith

pub next_message-body : (finish : Bool) (w : Writer) → (next_message finish w).body ≡ w.buf
unfolding mix
next_message-body finish w = ground arith

next_message-IsFirst :
    (status : ℕ) (header : List (String × List Text)) (finish : Bool) (w : Writer)
    → w.first_send ≡ true
    → w.first_resp.status ≡ status
    → w.first_resp.header ≡ []
    → w.header ≡ header
    → IsFirst status header finish (next_message finish w)
unfolding mix
next_message-IsFirst status header finish w f a b c = ground arith

next_message-IsLater :
    (finish : Bool) (w : Writer) → w.first_send ≡ false → IsLater finish (next_message finish w)
next_message-IsLater finish w f = ground arith

pub taken-flush : (finish : Bool) (w : Writer) → w.answers ≡ [] → taken (flush finish w).1 ≡ taken w
taken-flush finish w h =
    let r = flush_answered finish w h in
    rw (r.1, r.2, bodies-append w.sent (next_message finish w ∷ []), next_message-body finish w)
      (simp append-nil)

pub bodies-flush :
    (finish : Bool) (w : Writer) → w.answers ≡ [] → bodies (flush finish w).1.sent ≡ taken w
bodies-flush finish w h =
    sym (append-nil _)
    ∙ ap (λ b. bodies (flush finish w).1.sent ++ b) (sym (flush_answered finish w h).2)
    ∙ taken-flush finish w h

pub Opened-extend :
    (status : ℕ) (header : List (String × List Text)) (w : Writer) (sent : List HttpResponse)
    (resp : HttpResponse)
    → w.header ≡ header
    → Opened status header w.first_send w.first_resp sent
    → Opened status header false resp (sent ++ next_message false w ∷ [])
Opened-extend status header w [] resp h o =
    (refl, next_message-IsFirst status header false w o.0 o.1 o.2 h, tt)
Opened-extend status header w (r ∷ rs) resp h o =
    (refl, o.1, All-append (IsLater false) rs _ o.2 (next_message-IsLater false w o.0, tt))

Ending-extend :
    (w : Writer) (rs : List HttpResponse)
    → w.first_send ≡ false
    → All (IsLater false) rs
    → Ending (rs ++ next_message true w ∷ [])
Ending-extend w [] f a = next_message-IsLater true w f
Ending-extend w (r ∷ []) f a = (a.0, Ending-extend w [] f tt)
Ending-extend w (r ∷ s ∷ rs) f a = (a.0, Ending-extend w (s ∷ rs) f a.1)

pub IsResponse-extend :
    (status : ℕ) (header : List (String × List Text)) (w : Writer) (sent : List HttpResponse)
    → w.header ≡ header
    → Opened status header w.first_send w.first_resp sent
    → IsResponse status header (sent ++ next_message true w ∷ [])
IsResponse-extend status header w [] h o = next_message-IsFirst status header true w o.0 o.1 o.2 h
IsResponse-extend status header w (r ∷ []) h o = (o.1, Ending-extend w [] o.0 tt)
IsResponse-extend status header w (r ∷ s ∷ rs) h o = (o.1, Ending-extend w (s ∷ rs) o.0 o.2)
