-- ===== src/Portal/Writer/Copy.antt =====
-- portal/portal.go: ReadFrom and the final Flush, over a sendFunc that takes everything.
use http_portal.Base.{
  ℕ, ◌+◌, ◌*◌, ◌-◌, ◌≤◌, ◌<◌, ◌≡◌, refl, subst, sym, ap, ◌∙◌, String, true, false, Option, none,
  some, List, [], ◌∷◌, ◌++◌, append_assoc, length, take, drop, ltb, le→ltb, leb, if◌then◌else◌,
  arith, length-append, length-take-le, length-drop, take-append-drop, Text, Bool-cases, inl, inr,
  leb_false→lt,
}
use http_portal.Core.Errors.{Error}
use http_portal.Core.Conn.{ok}
use http_portal.Portal.Writer.Loop.{Good, read_loop_rule}
use http_portal.Portal.Writer.Bounds.{IsRoomy}
use http_portal.Portal.Writer.Stream.{
  bodies, bodies-flush, bytes_of, error_of, taken, Opened, IsResponse, flush_answered, taken-flush,
  Opened-extend, IsResponse-extend,
}
use http_portal.Portal.Writer.{
  Writer, new_writer, write_header, grow_buf, flush, Reader, piece, read, read_end, flush_if_full,
  fill, absorb, once_grown, round, reader_rounds, read_from, end_of_read, response_size_limit,
  response_read_size,
}

-- What a Read that gave bs and e has left of a reader.
abbrev Reads : ℕ → Reader → List ℕ → Option Error → Reader → Type 0
Reads room reader bs none rest =
    (length bs ≤ room)
    × (reader_rounds rest < reader_rounds reader)
    × (bs ++ bytes_of rest ≡ bytes_of reader)
    × (error_of rest ≡ error_of reader)
Reads room reader bs (some e) rest =
    (length bs ≤ room) × (bs ≡ bytes_of reader) × (end_of_read e ≡ error_of reader)

read-Reads :
    (room : ℕ) (reader : Reader)
    → 0 < room
    → let r = read room reader in Reads room reader r.0.0 r.0.1 r.1
unfolding read reader_rounds bytes_of error_of
read-Reads room [] h = (omega arith, refl, refl)
read-Reads room (piece bs none ∷ more) h = elim (Bool-cases (leb (length bs) room)) [
  | inl all ↦ rw all (ground arith, ground arith, refl, refl)
  | inr part ↦ rw part (
    length-take-le room bs,
    ground (arith, length-drop room bs),
    sym (append_assoc (take room bs) (drop room bs) (bytes_of more))
        ∙ rw (take-append-drop room bs),
    refl,
  )
]
read-Reads room (piece bs (some e) ∷ more) h = elim (Bool-cases (leb (length bs) room)) [
  | inl all ↦ rw all (ground arith, refl, refl)
  | inr part ↦
      rw part (
        length-take-le room bs,
        ground (arith, length-drop room bs),
        take-append-drop room bs,
        refl,
      )
]

grow_buf_shape :
    (n : ℕ) (w : Writer)
    → IsRoomy w
    → n ≤ response_read_size
    → (c : ℕ) × (grow_buf n w ≡ (none, record w { capacity = c })) × (length w.buf + n ≤ c)
unfolding grow_buf
grow_buf_shape n w v h = (
  if ltb (length w.buf + n) w.capacity then w.capacity else 2 * w.capacity + n,
  ground arith,
  ground arith,
)

module _ (status : ℕ) (header : List (String × List Text)) (total : List ℕ) (count : ℕ)
    (ending : Option Error) where
  -- What holds between two rounds of ReadFrom.
  record Running (has_read has_send : ℕ) (reader : Reader) (w : Writer) : Type 0 where
    roomy : IsRoomy w
    answered : w.answers ≡ []
    header_kept : w.header ≡ header
    opened : Opened status header w.first_send w.first_resp w.sent
    in_step : has_send ≡ length w.buf
    all_bytes : taken w ++ bytes_of reader ≡ total
    all_counted : has_read + length (bytes_of reader) ≡ count
    ends_so : error_of reader ≡ ending

  -- What holds when it has returned.
  pub record Finished (n : ℕ) (e : Option Error) (w : Writer) : Type 0 where
    pub counted : n ≡ count
    pub ended : e ≡ ending
    pub answered : w.answers ≡ []
    pub header_kept : w.header ≡ header
    pub opened : Opened status header w.first_send w.first_resp w.sent
    pub all_bytes : taken w ≡ total

  flush_if_full-Running :
      (rounds has_read has_send : ℕ) (reader : Reader) (w : Writer)
      → length w.buf ≤ w.capacity
      → w.answers ≡ []
      → w.header ≡ header
      → Opened status header w.first_send w.first_resp w.sent
      → has_send ≡ length w.buf
      → taken w ++ bytes_of reader ≡ total
      → has_read + length (bytes_of reader) ≡ count
      → error_of reader ≡ ending
      → reader_rounds reader < rounds
      → Good Running Finished rounds (flush_if_full has_read has_send reader w)
  unfolding flush_if_full
  flush_if_full-Running rounds has_read has_send reader w fits ans hd op st bytes cnt en less =
      let f = flush_answered false w ans in
      elim (Bool-cases (leb response_size_limit has_send)) [
        | inl full ↦
            rw (full, f.0)
              (
                record {
                  roomy = omega (arith, ap length f.2);
                  answered = f.3;
                  header_kept = f.4 ∙ hd;
                  opened =
                      rw (f.1, f.5)
                        (Opened-extend status header w w.sent (flush false w).1.first_resp hd op);
                  in_step = sym (ap length f.2);
                  all_bytes = rw (taken-flush false w ans) bytes;
                  all_counted = cnt;
                  ends_so = en;
                },
                less,
              )
        | inr rest ↦ rw rest (
          record {
            roomy = omega (arith, leb_false→lt response_size_limit has_send rest);
            answered = ans;
            header_kept = hd;
            opened = op;
            in_step = st;
            all_bytes = bytes;
            all_counted = cnt;
            ends_so = en;
          },
          less,
        )
      ]

  absorb-Running :
      (has_read has_send room : ℕ) (reader : Reader) (bs : List ℕ) (e : Option Error)
      (rest : Reader) (w : Writer)
      → Reads room reader bs e rest
      → length w.buf + room ≤ w.capacity
      → w.answers ≡ []
      → w.header ≡ header
      → Opened status header w.first_send w.first_resp w.sent
      → has_send ≡ length w.buf
      → taken w ++ bytes_of reader ≡ total
      → has_read + length (bytes_of reader) ≡ count
      → error_of reader ≡ ending
      → Good Running Finished (reader_rounds reader) (absorb has_read has_send bs e rest w)
  unfolding absorb
  absorb-Running has_read has_send room reader bs (some x) rest w r fits ans hd op st bytes cnt en =
      record {
        counted = rw r.1 cnt;
        ended = r.2 ∙ en;
        answered = ans;
        header_kept = hd;
        opened = op;
        all_bytes = rw r.1 (sym (append_assoc _ w.buf (bytes_of reader)) ∙ bytes);
      }
  absorb-Running has_read has_send room reader bs none rest w r fits ans hd op st bytes cnt en =
      flush_if_full-Running (reader_rounds reader) (has_read + length bs) (has_send + length bs)
        rest (record w { buf = w.buf ++ bs }) (omega (arith, length-append w.buf bs)) ans hd op
        (omega (arith, length-append w.buf bs))
        (simp (append_assoc, r.2) (simp append_assoc at bytes))
        (omega (arith, ap length r.2, length-append bs (bytes_of rest))) (r.3 ∙ en) r.1

  round-Running :
      (has_read has_send : ℕ) (reader : Reader) (w : Writer)
      → Running has_read has_send reader w
      → Good Running Finished (reader_rounds reader) (round has_read has_send reader w)
  unfolding round once_grown fill
  round-Running has_read has_send reader w v =
      let (c, grown, fits) = grow_buf_shape response_read_size w v.roomy (omega arith) in
      let w' : Writer = record w { capacity = c } in
      let room : length w.buf + (read_end w' - length w.buf) ≤ c = ground arith in
      subst
        (λ g.
          Good Running Finished (reader_rounds reader)
            (once_grown has_read has_send reader g.0 g.1))
        (sym grown)
        (rw (le→ltb (read_end w') (length w.buf) (ground arith)) (
          absorb-Running has_read has_send (read_end w' - length w.buf) reader _ _ _ w'
            (read-Reads (read_end w' - length w.buf) reader (ground arith)) room v.answered
            v.header_kept v.opened v.in_step v.all_bytes v.all_counted v.ends_so))

  pub read_from-Finished :
      (reader : Reader) (w : Writer)
      → IsRoomy w
      → w.answers ≡ []
      → w.header ≡ header
      → Opened status header w.first_send w.first_resp w.sent
      → taken w ++ bytes_of reader ≡ total
      → length (bytes_of reader) ≡ count
      → error_of reader ≡ ending
      → (n : ℕ) × (e : Option Error) × (w' : Writer) × (read_from reader w ≡ some (ok (n, e), w'))
        × Finished n e w'
  unfolding read_from
  read_from-Finished reader w v ans hd op bytes cnt en =
      read_loop_rule Running Finished round-Running (reader_rounds reader) 0 (length w.buf) reader w
        (omega arith)
        (record {
          roomy = v;
          answered = ans;
          header_kept = hd;
          opened = op;
          in_step = refl;
          all_bytes = bytes;
          all_counted = omega (arith, cnt);
          ends_so = en;
        })

-- A handler that sets a status, collects headers and copies a reader into a fresh writer, and the
-- Flush(true) behind it: whatever the capacity of the pool's buffer, and with a sendFunc that takes
-- everything, ReadFrom returns the number of bytes that the reader gave and the reader's error (none
-- for io.EOF); the messages that were sent are one with the status and the headers and then ones
-- with neither, all but the last marked as not the last; and their bodies, joined, are the bytes
-- that the reader gave.
pub copy-IsResponse :
    (capacity status : ℕ) (header : List (String × List Text)) (reader : Reader)
    → (n : ℕ) × (e : Option Error) × (w : Writer) × (read_from reader
          (record (write_header status (new_writer capacity [])) { header = header })
        ≡ some (ok (n, e), w))
      × (n ≡ length (bytes_of reader))
      × (e ≡ error_of reader)
      × ((flush true w).0 ≡ none)
      × IsResponse status header (flush true w).1.sent
      × (bodies (flush true w).1.sent ≡ bytes_of reader)
unfolding write_header new_writer
copy-IsResponse capacity status header reader =
    let w0 : Writer = record (write_header status (new_writer capacity [])) { header = header } in
    let (n, e, w, run, done) =
      read_from-Finished status header (bytes_of reader) (length (bytes_of reader))
        (error_of reader) reader w0 (record { inside = omega arith; below_limit = omega arith })
        refl refl (refl, refl, refl) refl refl refl in
    let f = flush_answered true w done.answered in
    (
      n,
      e,
      w,
      run,
      done.counted,
      done.ended,
      f.0,
      rw f.1 (IsResponse-extend status header w w.sent done.header_kept done.opened),
      bodies-flush true w done.answered ∙ done.all_bytes,
    )
