-- ===== src/Server/Relay/Response.antt =====
-- portal_server/proxy_server.go with portal/portal.go: a response on its way from the agent's
-- HttpResponseWriter through DoRequest to the browser.
use http_portal.Base.{
  ℕ, ◌≡◌, refl, ap, ◌∙◌, String, Bool, true, false, Option, none, some, List, [], ◌∷◌, ◌++◌, map,
  arith, string_eq, ◌==◌, if◌then◌else◌, Text, append-nil, append_assoc,
}
use http_portal.Core.Errors.{Error}
use http_portal.Core.Messages.{HttpResponse, RpcHeader}
use http_portal.Core.Conn.{ok}
use http_portal.Portal.Writer.{Writer, Reader, new_writer, write_header, read_from, flush, to_field}
use http_portal.Portal.Writer.Stream.{IsResponse, Ending, bodies, bytes_of}
use http_portal.Portal.Writer.Copy.{copy-IsResponse}
use http_portal.Server.Clients.{Reply, rpc_message}
use http_portal.Server.Relay.{HttpWriter, Forwarded, forward, write_part, write_answered, all_lines}

-- The messages of a response, as the channel gives them.
abbrev pub as_replies : RpcHeader → List HttpResponse → List Reply
as_replies h [] = []
as_replies h (r ∷ rs) = rpc_message h r ∷ as_replies h rs

pub write_part_lem :
    (first : Bool) (r : HttpResponse) (w : HttpWriter) (bs : List ℕ)
    → w.answers ≡ []
    → r.body ≡ bs
    → write_part first r w ≡ (
      none,
      record w {
        added = if first then w.added ++ all_lines r.header else w.added;
        status = if first then some r.status else w.status;
        body = w.body ++ bs;
      },
    )
unfolding write_part write_answered
write_part_lem true r w [] a e = ground (arith, append-nil w.body)
write_part_lem true r w (b ∷ bs) a e = ground arith
write_part_lem false r w [] a e = ground (arith, append-nil w.body)
write_part_lem false r w (b ∷ bs) a e = ground arith

-- What DoRequest makes of the later messages of a response that is over.
forward-Ending :
    (t : ℕ → HttpWriter → Forwarded) (h : RpcHeader) (rs : List HttpResponse) (w : HttpWriter)
    → (h.error == "") ≡ true
    → w.answers ≡ []
    → Ending rs
    → let f = forward t false (as_replies h rs) w in
      (f.code ≡ 200) × (f.error ≡ none) × (f.writer ≡ record w { body = w.body ++ bodies rs })
unfolding forward
forward-Ending t h [] w ok_ a e = absurd e
forward-Ending t h (r ∷ []) w ok_ a e =
    ground (arith, write_part_lem false r w r.body a refl, append-nil r.body)
forward-Ending t h (r ∷ s ∷ rs) w ok_ a e = ground (
  arith,
  write_part_lem false r w r.body a refl,
  append_assoc w.body r.body (bodies (s ∷ rs)),
  forward-Ending t h (s ∷ rs) (record w { body = w.body ++ r.body }) ok_ a e.1,
)

-- The messages of a response, given to DoRequest one after the other, make it return 200 with no
-- error, and make it write the status of the first message, its header lines and the joined bodies:
-- for a browser that takes every Write, and with no error in the messages' headers.
pub forward-IsResponse :
    (t : ℕ → HttpWriter → Forwarded) (h : RpcHeader) (status : ℕ)
    (header : List (String × List Text)) (rs : List HttpResponse) (w : HttpWriter)
    → (h.error == "") ≡ true
    → w.answers ≡ []
    → IsResponse status header rs
    → let f = forward t true (as_replies h rs) w in
      (f.code ≡ 200)
      × (f.error ≡ none)
      × (f.writer ≡ record w {
        added = w.added ++ all_lines (map to_field header);
        status = some status;
        body = w.body ++ bodies rs;
      })
unfolding forward
forward-IsResponse t h status header [] w ok_ a e = absurd e
forward-IsResponse t h status header (r ∷ []) w ok_ a e =
    ground (arith, write_part_lem true r w r.body a refl, append-nil r.body)
forward-IsResponse t h status header (r ∷ s ∷ rs) w ok_ a e = ground (
  arith,
  write_part_lem true r w r.body a refl,
  append_assoc w.body r.body (bodies (s ∷ rs)),
  forward-Ending t h (s ∷ rs)
      (record w {
        added = w.added ++ all_lines r.header;
        status = some r.status;
        body = w.body ++ r.body;
      })
      ok_ a e.1,
)

-- From the agent's handler to the browser: the agent copies a reader into a fresh
-- HttpResponseWriter with a status and headers, under a sendFunc that takes everything, and flushes
-- at the end; DoRequest is given the messages in order, under a header without an error, and the
-- browser takes every Write. Then the browser gets that status, those
-- header lines and exactly the bytes of the reader, and DoRequest returns 200, whatever the capacity
-- of the pool's buffer and however the reader cuts its bytes.
pub response_end_to_end :
    (t : ℕ → HttpWriter → Forwarded) (h : RpcHeader) (capacity status : ℕ)
    (header : List (String × List Text)) (reader : Reader)
    → (h.error == "") ≡ true
    → (n : ℕ) × (e : Option Error) × (agent : Writer) × (read_from reader
          (record (write_header status (new_writer capacity [])) { header = header })
        ≡ some (ok (n, e), agent))
      × (let f =
            forward t true
              (as_replies h (flush true agent).1.sent)
              (record { added = []; status = none; body = []; answers = [] }) in
          (f.code ≡ 200)
          × (f.error ≡ none)
          × (f.writer.status ≡ some status)
          × (f.writer.added ≡ all_lines (map to_field header))
          × (f.writer.body ≡ bytes_of reader))
response_end_to_end t h capacity status header reader ok_ =
    let (n, e, agent, run, counted, ended, flushed, shape, same) =
      copy-IsResponse capacity status header reader in
    let (code, error, writer) =
      forward-IsResponse t h status header (flush true agent).1.sent
        (record { added = []; status = none; body = []; answers = [] }) ok_ refl shape in
    (
      n,
      e,
      agent,
      run,
      (
        code,
        error,
        ap (λ x. x.status) writer,
        ap (λ x. x.added) writer,
        ap (λ x. x.body) writer ∙ same,
      ),
    )
