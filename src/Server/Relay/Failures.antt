-- ===== src/Server/Relay/Failures.antt =====
-- portal_server/proxy_server.go: DoRequest where the response is cut short or is an error.
use http_portal.Base.{
  ℕ, ◌≡◌, refl, Bool, true, false, none, some, List, [], ◌∷◌, ◌++◌, arith, string_eq, ◌==◌,
  append-nil, append_assoc, All,
}
use http_portal.Core.Errors.{opaque}
use http_portal.Core.Messages.{HttpResponse, RpcHeader}
use http_portal.Portal.Writer.Stream.{bodies}
use http_portal.Server.Clients.{Reply, rpc_message}
use http_portal.Server.Relay.{HttpWriter, Forwarded, forward, all_lines}
use http_portal.Server.Relay.Response.{as_replies, write_part_lem}

abbrev pub Unfinished : HttpResponse → Type 0
Unfinished r = r.not_finish ≡ true

forward-later_cut :
    (t : ℕ → HttpWriter → Forwarded) (h : RpcHeader) (rs : List HttpResponse) (w : HttpWriter)
    → (h.error == "") ≡ true
    → w.answers ≡ []
    → All Unfinished rs
    → let f = forward t false (as_replies h rs) w in
      (f.code ≡ 504) × (f.error ≡ none) × (f.writer ≡ record w { body = w.body ++ bodies rs })
unfolding forward
forward-later_cut t h [] w ok_ a u = ground (arith, append-nil w.body)
forward-later_cut t h (r ∷ rs) w ok_ a u = ground (
  arith,
  write_part_lem false r w r.body a refl,
  append_assoc w.body r.body (bodies rs),
  forward-later_cut t h rs (record w { body = w.body ++ r.body }) ok_ a u.1,
)

-- Where the channel gives only messages without an error that are not the last, and the browser
-- takes every Write, DoRequest ends by its timeout and
-- never reports success: it returns 504, with an error if there was no message at all, and with none
-- if status and a part of the body are already written, which it keeps.
pub forward_cut :
    (t : ℕ → HttpWriter → Forwarded) (h : RpcHeader) (rs : List HttpResponse) (w : HttpWriter)
    → (h.error == "") ≡ true
    → w.answers ≡ []
    → All Unfinished rs
    → let f = forward t true (as_replies h rs) w in
      (f.code ≡ 504)
      × (f.writer.body ≡ w.body ++ bodies rs)
      × (rs ≡ [] → (f.error ≡ some (opaque "receive resp timeout")) × (f.writer.status ≡ w.status))
      × ((first : HttpResponse) (more : List HttpResponse)
          → rs ≡ first ∷ more
          → (f.error ≡ none) × (f.writer.status ≡ some first.status))
unfolding forward
forward_cut t h [] w ok_ a u =
    (refl, ground (arith, append-nil w.body), λ e. (refl, refl), λ first more e. cc)
forward_cut t h (r ∷ rs) w ok_ a u =
    let w' : HttpWriter = record w {
      added = w.added ++ all_lines r.header;
      status = some r.status;
      body = w.body ++ r.body;
    } in
    let part = write_part_lem true r w r.body a refl in
    let rest = forward-later_cut t h rs w' ok_ a u.1 in
    (
      ground (arith, part, rest),
      ground (arith, part, rest, append_assoc w.body r.body (bodies rs)),
      λ e. cc,
      λ first more e. (ground (arith, part, rest), ground (arith, part, rest)),
    )

-- An error of the agent in the header of a message becomes 502 with that text, wherever in the row
-- of messages it comes, and nothing of its body is written.
pub forward_agent_error :
    (t : ℕ → HttpWriter → Forwarded) (first : Bool) (h : RpcHeader) (r : HttpResponse)
    (more : List Reply) (w : HttpWriter)
    → (h.error == "") ≡ false
    → let f = forward t first (rpc_message h r ∷ more) w in
      (f.code ≡ 502) × (f.error ≡ some (opaque h.error)) × (f.writer ≡ w) × (f.beats ≡ 0)
unfolding forward
forward_agent_error t first h r more w e = ground arith
