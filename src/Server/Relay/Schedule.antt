-- ===== src/Server/Relay/Schedule.antt =====
-- portal_server/proxy_server.go and core/net.go: DoRequest and keepConnection as two goroutines. The
-- one writes a message and comes back to its select, the other hands messages over as they arrive;
-- a list of events says in which order their steps happen.
use http_portal.Base.{
  ℕ, ◌≡◌, refl, Bool, true, false, not, Option, none, some, List, [], ◌∷◌, ◌++◌, arith, string_eq,
  nat_eq, ◌==◌, if◌then◌else◌, lookup, lookup-insert,
}
use http_portal.Core.Messages.{HttpResponse, RpcHeader}
use http_portal.Core.Receiver.{Receiver, Channel, idle, waiting, handed, send_response, hand_over}
use http_portal.Server.Clients.{Reply, rpc_message}
use http_portal.Server.Relay.{HttpWriter, Forwarded, forward, write_part, all_lines}
use http_portal.Server.Relay.Response.{as_replies, write_part_lem}

-- `arrives`: keepConnection has read a response and calls SendResponse. `waits`: DoRequest, at the
-- head of its loop, enters its select. `wakes`: it goes on with the message that it was handed.
pub data Event : Type 0 where
  arrives : RpcHeader → HttpResponse → Event
  waits wakes : Event

-- DoRequest behind client.Send: whether its loop still runs, firstReceive, and what it has written.
pub record Exchange : Type 0 where
  pub channel : Option (Channel Reply)
  pub running : Bool
  pub first : Bool
  pub writer : HttpWriter

-- SendResponse as the channel sees it.
abbrev offer : Reply → Option (Channel Reply) → Option (Channel Reply)
offer m (some waiting) = some (handed m)
offer m c = c

abbrev enter_select : Bool → Option (Channel Reply) → Option (Channel Reply)
enter_select true (some idle) = some waiting
enter_select _ c = c

unfoldable pub process : Reply → Exchange → Exchange
process (rpc_message h r) x =
    let (e, w) = write_part x.first r x.writer in
    if not (h.error == "") then record x { channel = some idle; running = false } else record x {
      channel = some idle;
      running = elim e [ some e ↦ false | none ↦ r.not_finish ];
      first = false;
      writer = w;
    }
process _ x = record x { channel = some idle; running = false }

wake : Option (Channel Reply) → Exchange → Exchange
wake (some (handed m)) x = process m x
wake _ x = x

unfoldable pub step : Event → Exchange → Exchange
unfolding wake
step (arrives h r) x = record x { channel = offer (rpc_message h r) x.channel }
step waits x = record x { channel = enter_select x.running x.channel }
step wakes x = wake x.channel x

unfoldable pub run : List Event → Exchange → Exchange
run [] x = x
run (e ∷ es) x = run es (step e x)

-- The channel of a number, as SendResponse changes it.
pub offer-send_response :
    (seq : ℕ) (m : Reply) (r : Receiver Reply)
    → lookup seq (send_response seq m r).1.requests ≡ offer m (lookup seq r.requests)
unfolding send_response
offer-send_response seq m r = by_channel (lookup seq r.requests) refl
  where
    by_channel :
        (c : Option (Channel Reply))
        → lookup seq r.requests ≡ c
        → lookup seq (hand_over seq m c r).1.requests ≡ offer m c
    by_channel none e = e
    by_channel (some waiting) e = ground (arith, lookup-insert seq seq (handed m) r.requests)
    by_channel (some idle) e = e
    by_channel (some (handed n)) e = e

-- Each message arrives while DoRequest stands in its select.
abbrev pub in_step : RpcHeader → List HttpResponse → List Event
in_step h [] = []
in_step h (r ∷ rs) = waits ∷ arrives h r ∷ wakes ∷ in_step h rs

-- DoRequest out of its select, before or after the loop's end.
abbrev pub busy : Bool → Bool → HttpWriter → Exchange
busy running first w = record { channel = some idle; running = running; first = first; writer = w }

stopped :
    (h : RpcHeader) (rs : List HttpResponse) (first : Bool) (w : HttpWriter)
    → run (in_step h rs) (busy false first w) ≡ busy false first w
unfolding run step
stopped h [] first w = refl
stopped h (r ∷ rs) first w = stopped h rs first w

-- If every message arrives while DoRequest waits for it, the two goroutines together write what the
-- loop of DoRequest writes of the messages in their order.
run-in_step :
    (t : ℕ → HttpWriter → Forwarded) (h : RpcHeader) (rs : List HttpResponse) (first : Bool)
    (w : HttpWriter)
    → (run (in_step h rs) (busy true first w)).writer ≡ (forward t first (as_replies h rs) w).writer
unfolding run step forward process
run-in_step t h [] true w = refl
run-in_step t h [] false w = refl
run-in_step t h (r ∷ rs) first w = ground (
  arith,
  stopped h rs first w,
  stopped h rs false (write_part first r w).1,
  run-in_step t h rs false (write_part first r w).1,
)

-- Three messages of one response, of which the second arrives while DoRequest still writes the first.
abbrev pub too_early : RpcHeader → HttpResponse → HttpResponse → HttpResponse → List Event
too_early h r s u = waits ∷ arrives h r ∷ arrives h s ∷ wakes ∷ waits ∷ arrives h u ∷ wakes ∷ []

-- A message that arrives while DoRequest does not stand in its select is lost, and DoRequest does
-- not notice: with no error in the header, a browser that takes every Write, a first message that is
-- not the last and a third that is, and whatever the second holds, the loop ends normally after the last
-- one, and the body that the browser got lacks the second message's bytes.
pub run-too_early :
    (h : RpcHeader) (r s u : HttpResponse) (w : HttpWriter)
    → (h.error == "") ≡ true
    → w.answers ≡ []
    → r.not_finish ≡ true
    → u.not_finish ≡ false
    → run (too_early h r s u) (busy true true w)
      ≡ busy false false (record w {
        added = w.added ++ all_lines r.header;
        status = some r.status;
        body = w.body ++ r.body ++ u.body;
      })
unfolding run step process
run-too_early h r s u w ok_ a more last = ground (
  arith,
  write_part_lem true r w r.body a refl,
  write_part_lem false u
      (record w {
        added = w.added ++ all_lines r.header;
        status = some r.status;
        body = w.body ++ r.body;
      })
      u.body a refl,
)
