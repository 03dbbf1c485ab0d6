-- ===== src/Portal/Writer/Bounds.antt =====
-- portal/portal.go: HttpResponseWriter stays inside its buffer, and ReadFrom ends.
use http_portal.Base.{
  ℕ, ◌+◌, ◌-◌, ◌≤◌, ◌<◌, ◌≡◌, refl, Bool, false, Option, none, some, List, [], ◌∷◌, ◌++◌, length,
  le→ltb, leb, arith, length-append, length-take-le, length-drop, ◌⊎◌, inl, inr, Bool-cases,
}
use http_portal.Core.Errors.{Error, opaque}
use http_portal.Core.Conn.{ok}
use http_portal.Core.Wire.{max_receive_size}
use http_portal.Portal.Writer.Loop.{Good, read_loop_rule}
use http_portal.Portal.Writer.{
  Writer, grow_buf, flush, deliver, put, write, Reader, piece, read, read_end, Round, flush_if_full,
  fill, absorb, once_grown, round, reader_rounds, read_from, response_size_limit,
  response_read_size,
}

-- What holds between two calls: the buffer holds less than a message's limit, inside its capacity.
pub record IsRoomy (w : Writer) : Type 0 where
  pub inside : length w.buf ≤ w.capacity
  pub below_limit : length w.buf < response_size_limit

-- What holds also when a send has failed: a full buffer is kept.
pub record IsInside (w : Writer) : Type 0 where
  pub inside : length w.buf ≤ w.capacity

pub grow_buf_room :
    (n : ℕ) (w : Writer) → IsRoomy w → n ≤ response_read_size → (grow_buf n w).0 ≡ none
unfolding grow_buf
grow_buf_room n w v h = ground arith

-- growBuf makes room for n more bytes, keeps the ones that it has, or fails and changes nothing.
pub grow_buf-fits :
    (n : ℕ) (w : Writer)
    → length w.buf ≤ w.capacity
    → let r = grow_buf n w in
      (r.1.buf ≡ w.buf)
      × ((r.0 ≡ none) × (length w.buf + n ≤ r.1.capacity)
          ⊎ (r ≡ (some (opaque "bytes.Buffer: too large"), w))
            × (max_receive_size < w.capacity + n)
            × (w.capacity ≤ length w.buf + n))
unfolding grow_buf
grow_buf-fits n w h = ground arith

-- A Flush empties the buffer, or fails and keeps it.
pub flush_buffer :
    (finish : Bool) (w : Writer)
    → let r = flush finish w in
      (r.1.capacity ≡ w.capacity)
      × (((r.0 ≡ none) × (r.1.buf ≡ [])) ⊎ ((x : Error) × (r.0 ≡ some x) × (r.1.buf ≡ w.buf)))
unfolding flush deliver
flush_buffer finish w = ground arith

-- What a Read that gave bs and e has left of a reader.
abbrev Reads : ℕ → Reader → List ℕ → Option Error → Reader → Type 0
Reads room reader bs none rest = (length bs ≤ room) × (reader_rounds rest < reader_rounds reader)
Reads room reader bs (some e) rest = (length bs ≤ room) × Unit {0}

read-Reads :
    (room : ℕ) (reader : Reader)
    → 0 < room
    → let r = read room reader in Reads room reader r.0.0 r.0.1 r.1
unfolding read reader_rounds
read-Reads room [] h = omega arith
read-Reads room (piece bs none ∷ more) h =
    ground (arith, length-take-le room bs, length-drop room bs)
read-Reads room (piece bs (some e) ∷ more) h =
    ground (arith, length-take-le room bs, length-drop room bs)

-- A round of ReadFrom ends without a panic, or goes on with less to read and the invariant kept.
abbrev Progress : ℕ → Round → Type 0
Progress =
    Good (λ has_read has_send reader w. IsRoomy w × (has_send ≡ length w.buf)) (λ n e w. IsInside w)

flush_if_full-Progress :
    (n has_read has_send : ℕ) (reader : Reader) (w : Writer)
    → length w.buf ≤ w.capacity
    → has_send ≡ length w.buf
    → reader_rounds reader < n
    → Progress n (flush_if_full has_read has_send reader w)
unfolding flush_if_full
flush_if_full-Progress n has_read has_send reader w h e r = ground (arith, flush_buffer false w)

absorb-Progress :
    (has_read has_send room : ℕ) (reader : Reader) (bs : List ℕ) (e : Option Error) (rest : Reader)
    (w : Writer)
    → Reads room reader bs e rest
    → length w.buf + room ≤ w.capacity
    → has_send ≡ length w.buf
    → Progress (reader_rounds reader) (absorb has_read has_send bs e rest w)
unfolding absorb
absorb-Progress has_read has_send room reader bs (some x) rest w r h e =
    omega (arith, length-append w.buf bs)
absorb-Progress has_read has_send room reader bs none rest w r h e =
    flush_if_full-Progress (reader_rounds reader) (has_read + length bs) (has_send + length bs) rest
      (record w { buf = w.buf ++ bs }) (omega (arith, length-append w.buf bs))
      (omega (arith, length-append w.buf bs)) r.1

fill-Progress :
    (has_read has_send : ℕ) (reader : Reader) (w : Writer)
    → length w.buf < response_size_limit
    → length w.buf + response_read_size ≤ w.capacity
    → has_send ≡ length w.buf
    → Progress (reader_rounds reader) (fill has_read has_send reader w)
unfolding fill
fill-Progress has_read has_send reader w v h e =
    absorb-Progress has_read has_send (read_end w - length w.buf) reader _ _ _ w
      (read-Reads (read_end w - length w.buf) reader (ground arith)) (ground arith) e

round-Progress :
    (has_read has_send : ℕ) (reader : Reader) (w : Writer)
    → IsRoomy w
    → has_send ≡ length w.buf
    → Progress (reader_rounds reader) (round has_read has_send reader w)
unfolding round once_grown
round-Progress has_read has_send reader w v e = ground (
  arith,
  grow_buf_room response_read_size w v,
  grow_buf-fits response_read_size w v.inside,
  fill-Progress has_read has_send reader (grow_buf response_read_size w).1,
)

-- ReadFrom of a writer whose buffer holds less than ResponseSizeLimit bytes ends, without a panic.
pub read_from_total :
    (reader : Reader) (w : Writer)
    → IsRoomy w
    → (n : ℕ) × (e : Option Error) × (w' : Writer) × (read_from reader w ≡ some (ok (n, e), w'))
      × IsInside w'
unfolding read_from
read_from_total reader w v =
    read_loop_rule (λ has_read has_send reader w. IsRoomy w × (has_send ≡ length w.buf))
      (λ n e w. IsInside w)
      (λ has_read has_send r x h. round-Progress has_read has_send r x h.0 h.1)
      (reader_rounds reader) 0 (length w.buf) reader w (omega arith) (v, refl)

put_total :
    (bytes : List ℕ) (w : Writer)
    → length w.buf + length bytes ≤ w.capacity
    → (e : Option Error) × (w' : Writer) × (put bytes none w ≡ (ok (length bytes, e), w'))
      × IsInside w'
unfolding put
put_total bytes w h =
    let w1 : Writer = record w { buf = w.buf ++ bytes } in
    elim (Bool-cases (leb response_size_limit (length (w.buf ++ bytes)))) [
      | inl full ↦ (
        (flush false w1).0,
        (flush false w1).1,
        rw (le→ltb w.capacity (length w.buf + length bytes) h, full) refl,
        ground (arith, flush_buffer false w1, length-append w.buf bytes),
      )
      | inr rest ↦ (
        none,
        w1,
        rw (le→ltb w.capacity (length w.buf + length bytes) h, rest) refl,
        omega (arith, length-append w.buf bytes),
      )
    ]

-- A Write never panics. It counts every byte, whether or not the flush of a full buffer failed, and
-- keeps the buffer inside its capacity; or it is refused by an error, counts none and changes nothing,
-- which happens only where capacity and data together exceed MaxReceiveSize.
pub write_total :
    (bytes : List ℕ) (w : Writer)
    → length w.buf ≤ w.capacity
    → ((e : Option Error) × (w' : Writer) × (write bytes w ≡ (ok (length bytes, e), w'))
        × IsInside w')
      ⊎ ((x : Error) × (write bytes w ≡ (ok (0, some x), w))
          × (max_receive_size < w.capacity + length bytes))
unfolding write put
write_total bytes w h = elim (grow_buf-fits (length bytes) w h).1 [
  | inl (fits, room) ↦
      let (e, w', same, v) =
        put_total bytes (grow_buf (length bytes) w).1
          (rw (grow_buf-fits (length bytes) w h).0 room) in
      inl (e, w', rw fits same, v)
  | inr (same, big, tight) ↦ inr (opaque "bytes.Buffer: too large", rw same refl, big)
]
