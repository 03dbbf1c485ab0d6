-- ===== src/Core/Wire/Faults.antt =====
-- core/net.go: what Receive answers to a stream that is no frame, and to one that breaks.
use http_portal.Base.{
  sym, ℕ, ◌≤◌, ◌<◌, ◌≡◌, refl, ◌≢◌, Bool, true, false, Option, none, List, [], ◌∷◌, ◌++◌, map,
  length, drop, eqb, if◌then◌else◌, arith, string_eq, append_assoc, zero, suc,
}
use http_portal.Core.Errors.{Error, eof, is_close, net_root, opaque, wrap_error}
use http_portal.Core.Messages.{RpcHeader, Kind}
use http_portal.Core.Conn.{
  Conn, Outcome, ok, err, panic, byte, Arrival, read_full, read_full-bytes, read_from,
}
use http_portal.Core.Wire.Bytes.{uint32}
use http_portal.Core.Wire.{Codec, rpc_begin_flag, max_receive_size, receive_frame, receive}

module _ (codec : Codec) (d : Option ℕ) (new_msg : RpcHeader → Outcome Kind) (wait : Bool)
    (pool : List ℕ) where
  receive_head :
      (bs : List ℕ) (rest : List Arrival) (c : Conn)
      → length bs ≡ 12
      → c.inbox ≡ map byte bs ++ rest
      → read_full 12 c ≡ (ok bs, record c { inbox = rest })
  receive_head bs rest c n e = rw n at (read_full-bytes bs rest c e)

  frame_bad_flag :
      (bs : List ℕ) (rest : List Arrival) (c : Conn)
      → length bs ≡ 12
      → c.inbox ≡ map byte bs ++ rest
      → uint32 bs ≢ rpc_begin_flag
      → (x : Error) × ((receive_frame codec d new_msg wait pool c).0 ≡ err x) × (is_close x ≡ true)
  unfolding receive_frame is_close
  frame_bad_flag bs rest c n e bad =
      (net_root "begin flag wrong" false, ground (arith, receive_head bs rest c n e), refl)

  frame_too_big :
      (bs : List ℕ) (rest : List Arrival) (c : Conn)
      → length bs ≡ 12
      → c.inbox ≡ map byte bs ++ rest
      → uint32 bs ≡ rpc_begin_flag
      → max_receive_size < uint32 (drop 4 bs)
      → (receive_frame codec d new_msg wait pool c).0 ≡ panic "body length too big"
  unfolding receive_frame
  frame_too_big bs rest c n e flag big = ground (arith, receive_head bs rest c n e)

  frame_no_header :
      (bs : List ℕ) (rest : List Arrival) (c : Conn)
      → length bs ≡ 12
      → c.inbox ≡ map byte bs ++ rest
      → uint32 bs ≡ rpc_begin_flag
      → uint32 (drop 4 bs) ≤ max_receive_size
      → uint32 (drop 8 bs) ≡ 0
      → (receive_frame codec d new_msg wait pool c).0 ≡ err (opaque "pkg has no header")
  unfolding receive_frame
  frame_no_header bs rest c n e flag small z = ground (arith, receive_head bs rest c n e)

  -- What Receive returns is what it returns of the frame, under the deadline that it set.
  receive_result :
      (c : Conn)
      → (receive codec d new_msg wait pool c).0
        ≡ (receive_frame codec d new_msg wait pool
            (record c { deadline = if wait then none else d })).0
  unfolding receive
  receive_result c = ground arith

-- The error of a wrong begin flag has no cause.
pub receive-bad_flag :
    (codec : Codec) (d : Option ℕ) (new_msg : RpcHeader → Outcome Kind) (wait : Bool)
    (pool bs : List ℕ) (rest : List Arrival) (c : Conn)
    → length bs ≡ 12
    → c.inbox ≡ map byte bs ++ rest
    → uint32 bs ≢ rpc_begin_flag
    → (receive codec d new_msg wait pool c).0 ≡ err (net_root "begin flag wrong" false)
unfolding receive_frame
receive-bad_flag codec d new_msg wait pool bs rest c n e bad =
    let c' : Conn = record c { deadline = if wait then none else d } in
    rw (receive_result codec d new_msg wait pool c)
      (ground (arith, receive_head codec d new_msg wait pool bs rest c' n e))

-- What Receive makes of twelve bytes that have arrived, whatever the context's deadline and whatever
-- follows: a wrong begin flag is an error on which both programs close the connection; a body
-- length above MaxReceiveSize is a panic; and behind a right flag and a possible length, a header
-- length of 0 is an error on which they keep it.
pub receive_rejects :
    (codec : Codec) (d : Option ℕ) (new_msg : RpcHeader → Outcome Kind) (wait : Bool)
    (pool bs : List ℕ) (rest : List Arrival) (c : Conn)
    → length bs ≡ 12
    → c.inbox ≡ map byte bs ++ rest
    → let got = (receive codec d new_msg wait pool c).0 in
      (uint32 bs ≢ rpc_begin_flag → (x : Error) × (got ≡ err x) × (is_close x ≡ true))
      × (uint32 bs ≡ rpc_begin_flag
          → max_receive_size < uint32 (drop 4 bs)
          → got ≡ panic "body length too big")
      × (uint32 bs ≡ rpc_begin_flag
          → uint32 (drop 4 bs) ≤ max_receive_size
          → uint32 (drop 8 bs) ≡ 0
          → (x : Error) × (got ≡ err x) × (is_close x ≡ false))
unfolding is_close
receive_rejects codec d new_msg wait pool bs rest c n e =
    let c' : Conn = record c { deadline = if wait then none else d } in
    rw (receive_result codec d new_msg wait pool c) (
      λ bad. frame_bad_flag codec d new_msg wait pool bs rest c' n e bad,
      λ flag big. frame_too_big codec d new_msg wait pool bs rest c' n e flag big,
      λ flag small z. (
        opaque "pkg has no header",
        frame_no_header codec d new_msg wait pool bs rest c' n e flag small z,
        refl,
      ),
    )

-- The error of io.ReadAtLeast where the stream ends after these bytes.
abbrev ended : List ℕ → Error
ended [] = eof
ended (b ∷ bs) = opaque "unexpected EOF"

read_from_short :
    (n : ℕ) (got bs : List ℕ)
    → length bs < n
    → read_from n got (map byte bs) ≡ (err (ended (got ++ bs)), [])
unfolding read_from
read_from_short zero got bs h = elim h [ ]
read_from_short (suc n) [] [] h = refl
read_from_short (suc n) (g ∷ got) [] h = refl
read_from_short (suc n) got (b ∷ bs) h =
    rw (sym (append_assoc got (b ∷ []) bs)) (read_from_short n (got ++ b ∷ []) bs (omega arith))

ended_result :
    (codec : Codec) (d : Option ℕ) (new_msg : RpcHeader → Outcome Kind) (wait : Bool)
    (pool : List ℕ) (bs : List ℕ) (c : Conn)
    → length bs < 12
    → c.inbox ≡ map byte bs
    → (receive codec d new_msg wait pool c).0 ≡ err (wrap_error (ended bs) "read header error")
unfolding receive_frame read_full
ended_result codec d new_msg wait pool bs c n e =
    rw (receive_result codec d new_msg wait pool c) (ground (arith, read_from_short 12 [] bs n))

-- A stream that ends before a frame makes Receive fail with an error on which both programs close
-- the connection; one that ends inside the head of a frame makes it fail with one on which they
-- keep it.
pub receive_ended :
    (codec : Codec) (d : Option ℕ) (new_msg : RpcHeader → Outcome Kind) (wait : Bool)
    (pool : List ℕ) (bs : List ℕ) (c : Conn)
    → length bs < 12
    → c.inbox ≡ map byte bs
    → (x : Error) × ((receive codec d new_msg wait pool c).0 ≡ err x)
      × (is_close x ≡ eqb (length bs) 0)
unfolding is_close wrap_error
receive_ended codec d new_msg wait pool [] c n e =
    (wrap_error eof "read header error", ended_result codec d new_msg wait pool [] c n e, refl)
receive_ended codec d new_msg wait pool (b ∷ bs) c n e = (
  wrap_error (ended (b ∷ bs)) "read header error",
  ended_result codec d new_msg wait pool (b ∷ bs) c n e,
  ground arith,
)
