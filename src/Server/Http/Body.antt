-- ===== src/Server/Http/Body.antt =====
-- portal_server/http_server.go: readAll, and what serveHTTP does where the body cannot be read.
-- bytes.Buffer and its ReadFrom are Go's own: `room` is how many bytes the buffer can be made to hold.
use http_portal.Base.{
  ℕ, ◌≤◌, ◌<◌, ◌≡◌, refl, ◌⊎◌, inl, inr, String, Option, none, some, List, [], ◌∷◌, ◌++◌, length,
  length-append, append_assoc, append-nil, ascii, ltb, if◌then◌else◌, arith, Bool-cases,
}
use http_portal.Core.Errors.{Error, opaque}
use http_portal.Core.Conn.{Outcome, ok, err, panic}
use http_portal.Core.Wire.{Codec}
use http_portal.Portal.Writer.{Reader, piece, end_of_read}
use http_portal.Portal.Writer.Stream.{bytes_of, error_of}
use http_portal.Server.Clients.{Reply, done}
use http_portal.Server.Relay.{HttpWriter, Forwarded, ProxyServer}
use http_portal.Server.Http.Report.{written}
use http_portal.Server.Http.{
  Request, BodyRead, no_body, failed, complete, prepare, refused, serve_http, serve_prepared,
  write_http_error, Served,
}

-- What a panic carries: bytes.ErrTooLarge, or any other value.
pub data PanicValue : Type 0 where
  too_large : PanicValue
  other : String → PanicValue

-- How ReadFrom ends: it returns, or it panics.
pub data ReadEnd : Type 0 where
  returned : Option Error → ReadEnd
  panicked : PanicValue → ReadEnd

-- buf.ReadFrom(r), of a buffer that holds these bytes.
unfoldable pub buffer_read_from : ℕ → List ℕ → Reader → List ℕ × ReadEnd
buffer_read_from room got [] = (got, returned none)
buffer_read_from room got (piece bs none ∷ more) =
    let rest = buffer_read_from room (got ++ bs) more in
    if ltb room (length (got ++ bs)) then (got, panicked too_large) else rest
buffer_read_from room got (piece bs (some e) ∷ more) =
    if ltb room (length (got ++ bs))
    then (got, panicked too_large)
    else (got ++ bs, returned (end_of_read e))

abbrev pub buffer_too_large : Error
buffer_too_large = opaque "bytes.Buffer: too large"

-- The deferred function: ErrTooLarge becomes the error that readAll returns, and any other panic
-- goes on.
unfoldable pub recovered : ReadEnd → Outcome (Unit {0})
recovered (returned none) = ok tt
recovered (returned (some e)) = err e
recovered (panicked too_large) = err buffer_too_large
recovered (panicked (other s)) = panic s

-- readAll of an empty buffer: how it ends, and what the buffer holds.
unfoldable pub read_all : ℕ → Reader → Outcome (Unit {0}) × List ℕ
unfolding recovered
read_all room r = let (bs, end) = buffer_read_from room [] r in (recovered end, bs)

body_of : Outcome (Unit {0}) × List ℕ → Outcome BodyRead
body_of (ok u, bs) = ok (complete bs)
body_of (err e, bs) = ok (failed e)
body_of (panic s, bs) = panic s

-- if r.Body != nil { … }
unfoldable pub read_body : ℕ → Option Reader → Outcome BodyRead
unfolding body_of
read_body room none = ok no_body
read_body room (some r) = body_of (read_all room r)

-- All bytes of the reader, which fit, and no error; or an error.
abbrev Reads : ℕ → List ℕ → Reader → List ℕ × ReadEnd → Type 0
Reads room got r out =
    ((out ≡ (got ++ bytes_of r, returned none))
      × (error_of r ≡ none)
      × (length (got ++ bytes_of r) ≤ room))
    ⊎ (((e : Error) × (recovered out.1 ≡ err e))
        × (((x : Error) × (error_of r ≡ some x)) ⊎ (room < length (got ++ bytes_of r))))

abbrev read_end : List ℕ → Option Error → List ℕ × ReadEnd
read_end got x = (got, returned x)

buffer_read_from-Reads :
    (room : ℕ) (got : List ℕ) (r : Reader)
    → length got ≤ room
    → Reads room got r (buffer_read_from room got r)
unfolding buffer_read_from bytes_of error_of recovered
buffer_read_from-Reads room got [] h = inl (rw append-nil refl, refl, rw append-nil h)
buffer_read_from-Reads room got (piece bs none ∷ more) h =
    elim (Bool-cases (ltb room (length (got ++ bs)))) [
      | inl over ↦ rw over (
          inr (
            (buffer_too_large, refl),
            inr (
                ground (
                  arith,
                  length-append got (bs ++ bytes_of more),
                  length-append bs (bytes_of more),
                  length-append got bs,
                )),
          ))
      | inr fits ↦
          rw (fits, ← append_assoc got bs (bytes_of more))
            (buffer_read_from-Reads room (got ++ bs) more (ground arith))
    ]
buffer_read_from-Reads room got (piece bs (some e) ∷ more) h =
    elim (Bool-cases (ltb room (length (got ++ bs)))) [
      | inl over ↦ rw over (inr ((buffer_too_large, refl), inr (ground arith)))
      | inr fits ↦ rw fits (ending (end_of_read e) (ground arith))
    ]
  where
    ending :
        (x : Option Error)
        → length (got ++ bs) ≤ room
        → ((read_end (got ++ bs) x ≡ read_end (got ++ bs) none)
            × (x ≡ none)
            × (length (got ++ bs) ≤ room))
          ⊎ (((y : Error) × (recovered (returned x) ≡ err y))
              × (((z : Error) × (x ≡ some z)) ⊎ (room < length (got ++ bs))))
    ending none h' = inl (refl, refl, h')
    ending (some y) h' = inr ((y, refl), inl (y, refl))

prepare-failed : (r : Request) (e : Error) → r.body ≡ failed e → prepare r ≡ refused "body error"
unfolding prepare
prepare-failed r e broken = rw broken refl

-- A body that the server cannot read: the request goes to no agent, the browser, to which nothing was written
-- yet and which takes the next Write, gets the status 500 and "body error", and the server is as before. That is so for a reader that ends with an error and for one that gives more bytes than the
-- buffer can be made to hold, and for no other: any other's bytes are the body, all of them. readAll
-- never panics.
pub read_body_cases :
    (room : ℕ) (rd : Reader) (codec : Codec) (t : ℕ → HttpWriter → Forwarded) (now : ℕ)
    (timeout : Option ℕ) (r : BodyRead → Request) (replies : List Reply) (w : HttpWriter)
    (s : ProxyServer)
    → ((b : BodyRead) → (r b).body ≡ b)
    → w.answers ≡ []
    → w.status ≡ none
    → ((read_body room (some rd) ≡ ok (complete (bytes_of rd)))
        × (error_of rd ≡ none)
        × (length (bytes_of rd) ≤ room))
      ⊎ ((e : Error) × (read_body room (some rd) ≡ ok (failed e))
          × (((x : Error) × (error_of rd ≡ some x)) ⊎ (room < length (bytes_of rd)))
          × ((out : Served) × (serve_http codec t now timeout (r (failed e)) replies w s ≡ done out)
              × (out.error ≡ none)
              × (out.server ≡ s)
              × (out.writer.body ≡ w.body ++ (ascii "body error" ++ 10 ∷ []))
              × (out.writer.status ≡ some 500)))
unfolding read_body read_all recovered prepare serve_http serve_prepared
read_body_cases room rd codec t now timeout r replies w s body_of_r calm unwritten =
    elim (buffer_read_from-Reads room [] rd (omega arith)) [
      | inl (ran, fine, fits) ↦ inl (rw ran refl, fine, fits)
      | inr ((e, ended), large) ↦
          let (fine, body, new, old) = written "body error" 500 w calm in
          inr (
            e,
            rw (read_all, ended) refl,
            large,
            (
              record {
                error = (write_http_error "body error" 500 w).0;
                writer = (write_http_error "body error" 500 w).1;
                server = s;
              },
              rw (prepare-failed (r (failed e)) e (body_of_r (failed e)), serve_prepared) refl,
              fine,
              refl,
              body,
              new unwritten,
            ),
          )
    ]
