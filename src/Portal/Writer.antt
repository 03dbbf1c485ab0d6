-- ===== src/Portal/Writer.antt =====
-- portal/portal.go: HttpResponseWriter, which cuts a response into messages.
-- The buffer is the bytes that are in it and its capacity. `sendFunc` is a script of its answers,
-- none for success, and success when the script is over; what it took is logged in `sent`.
pub mod Loop
pub mod Bounds
pub mod Overfull
pub mod Stream
pub mod Copy
use http_portal.Base.{
  ℕ, zero, suc, ◌+◌, ◌*◌, ◌-◌, ◌≤◌, ◌<◌, String, Bool, true, false, not, Option, none, some, List,
  [], ◌∷◌, ◌++◌, map, length, take, drop, ltb, leb, eqb, if◌then◌else◌, Text, min,
}
use http_portal.Core.Errors.{Error, eof, opaque, with_message}
use http_portal.Core.Messages.{HeaderField, HttpResponse}
use http_portal.Core.Conn.{Outcome, ok, panic}
use http_portal.Core.Wire.{max_receive_size}

abbrev pub response_size_limit : ℕ
response_size_limit = 1024 * 1024 * 4

abbrev pub response_read_size : ℕ
response_read_size = 512

pub record Writer : Type 0 where
  pub first_resp : HttpResponse
  pub header : List (String × List Text)
  pub buf : List ℕ
  pub capacity : ℕ
  pub first_send : Bool
  pub sent : List HttpResponse
  pub answers : List (Option Error)

abbrev pub blank_response : HttpResponse
blank_response = record { status = 0; header = []; body = []; not_finish = false }

-- newHttpResponseWriter, over a buffer of the pool with that capacity.
unfoldable pub new_writer : ℕ → List (Option Error) → Writer
new_writer capacity answers = record {
  first_resp = record blank_response { status = 200 };
  header = [];
  buf = [];
  capacity = capacity;
  first_send = true;
  sent = [];
  answers = answers;
}

unfoldable pub write_header : ℕ → Writer → Writer
write_header status_code w = record w { first_resp = record w.first_resp { status = status_code } }

abbrev pub to_field : String × List Text → HeaderField
to_field (k, arr) = record { key = k; value = arr }

-- mix: the collected header and the buffer go into the first response.
unfoldable pub mix : Writer → HttpResponse
mix w = record w.first_resp { header = w.first_resp.header ++ map to_field w.header; body = w.buf }

unfoldable pub grow_buf : ℕ → Writer → Option Error × Writer
grow_buf n w =
    if ltb (length w.buf + n) w.capacity
    then (none, w)
    else if ltb max_receive_size (w.capacity + n)
    then (some (opaque "bytes.Buffer: too large"), w)
    else (none, record w { capacity = 2 * w.capacity + n })

-- The call of sendFunc and what Flush does with its answer.
unfoldable pub deliver : List (Option Error) → HttpResponse → Writer → Option Error × Writer
deliver [] resp w = (none, record w { sent = w.sent ++ resp ∷ []; buf = [] })
deliver (none ∷ more) resp w =
    (none, record w { sent = w.sent ++ resp ∷ []; buf = []; answers = more })
deliver (some e ∷ more) resp w =
    (some (with_message e "send resp error"), record w { answers = more })

unfoldable pub flush : Bool → Writer → Option Error × Writer
unfolding mix deliver
flush finish w =
    let first : HttpResponse = record (mix w) { not_finish = not finish } in
    let later : HttpResponse = record blank_response { body = w.buf; not_finish = not finish } in
    if w.first_send
    then deliver w.answers first (record w { first_resp = first; first_send = false })
    else deliver w.answers later w

-- The result of Write and ReadFrom: a count and an error, or a panic.
abbrev pub IoResult : Type 0
IoResult = Outcome (ℕ × Option Error) × Writer

-- Write, once growBuf has answered.
unfoldable pub put : List ℕ → Option Error → Writer → IoResult
put bytes (some e) w = (ok (0, some e), w)
put bytes none w =
    let w' : Writer = record w { buf = w.buf ++ bytes } in
    let (e, w2) = flush false w' in
    if ltb w.capacity (length w.buf + length bytes)
    then (panic "slice bounds out of range", w)
    else if leb response_size_limit (length w'.buf)
    then (ok (length bytes, e), w2)
    else (ok (length bytes, none), w')

unfoldable pub write : List ℕ → Writer → IoResult
unfolding put
write bytes w = let (e, w') = grow_buf (length bytes) w in put bytes e w'

-- An io.Reader: what it has to give, piece by piece, each with the error that comes with the last
-- byte of the piece. It ends in io.EOF. A Read gives at most the room that it is offered.
pub data Piece : Type 0 where
  piece : List ℕ → Option Error → Piece

abbrev pub Reader : Type 0
Reader = List Piece

unfoldable pub read : ℕ → Reader → (List ℕ × Option Error) × Reader
read room [] = (([], some eof), [])
read room (piece bs e ∷ more) =
    if leb (length bs) room
    then ((bs, e), more)
    else ((take room bs, none), piece (drop room bs) e ∷ more)

-- What the loop of ReadFrom does with the error of a Read.
abbrev pub end_of_read : Error → Option Error
end_of_read eof = none
end_of_read e = some e

-- w.buf[w.bufLen:end]
abbrev pub read_end : Writer → ℕ
read_end w = if ltb response_size_limit w.capacity then response_size_limit else w.capacity

-- One round of the loop of ReadFrom: it returns, or goes on with these hasRead and hasSend.
pub data Round : Type 0 where
  returns : IoResult → Round
  again : ℕ → ℕ → Reader → Writer → Round

-- if hasSend >= ResponseSizeLimit { … }
unfoldable pub flush_if_full : ℕ → ℕ → Reader → Writer → Round
flush_if_full has_read has_send reader w =
    let (e, w') = flush false w in
    if leb response_size_limit has_send
    then elim e [ some x ↦ returns (ok (has_read, some x), w') | none ↦ again has_read 0 reader w' ]
    else again has_read has_send reader w

-- The counts behind a Read, and what its error does.
unfoldable pub absorb : ℕ → ℕ → List ℕ → Option Error → Reader → Writer → Round
absorb has_read has_send bs (some x) reader w =
    returns (ok (has_read + length bs, end_of_read x), record w { buf = w.buf ++ bs })
absorb has_read has_send bs none reader w =
    flush_if_full (has_read + length bs) (has_send + length bs) reader
      (record w { buf = w.buf ++ bs })

unfoldable pub fill : ℕ → ℕ → Reader → Writer → Round
fill has_read has_send reader w =
    let r = read (read_end w - length w.buf) reader in absorb has_read has_send r.0.0 r.0.1 r.1 w

-- A round, once growBuf has answered.
unfoldable pub once_grown : ℕ → ℕ → Reader → Option Error → Writer → Round
once_grown has_read has_send reader (some e) w = returns (ok (has_read, some e), w)
once_grown has_read has_send reader none w =
    if ltb (read_end w) (length w.buf)
    then returns (panic "slice bounds out of range", w)
    else fill has_read has_send reader w

unfoldable pub round : ℕ → ℕ → Reader → Writer → Round
round has_read has_send reader w =
    let r = grow_buf response_read_size w in once_grown has_read has_send reader r.0 r.1

-- The loop of ReadFrom, on fuel; `none` means that the fuel ran out.
unfoldable pub read_loop : ℕ → ℕ → ℕ → Reader → Writer → Option IoResult
read_loop zero has_read has_send reader w = none
read_loop (suc fuel) has_read has_send reader w = elim (round has_read has_send reader w) [
  | returns r ↦ some r
  | again has_read' has_send' reader' w' ↦ read_loop fuel has_read' has_send' reader' w'
]

-- Every round takes a piece or a byte of the reader.
unfoldable pub reader_rounds : Reader → ℕ
reader_rounds [] = 1
reader_rounds (piece bs e ∷ more) = suc (length bs + reader_rounds more)

unfoldable pub read_from : Reader → Writer → Option IoResult
read_from reader w = read_loop (reader_rounds reader) 0 (length w.buf) reader w
