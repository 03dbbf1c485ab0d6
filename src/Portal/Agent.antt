-- ===== src/Portal/Agent.antt =====
-- portal/portal.go: LocalPortal, how the agent keeps its connection to the server alive.
-- What the network does to one call is an argument: the error of a dial, and how a request that was
-- sent ended. The clock is read once in a round. Portal.Session has the messages and their numbers.
-- `conns` counts the connections that were opened, `closes` the calls of conn.Close.
pub mod Machine
pub mod Recovery
use http_portal.Base.{
  ℕ, ◌+◌, ◌*◌, ◌-◌, ◌<◌, String, Bool, true, false, not, Option, none, some, List, [], ◌∷◌,
  string_eq, ◌==◌, if◌then◌else◌, ltb, leb,
}
use http_portal.Core.Errors.{Error, opaque, with_message, is_temporary, second}
use http_portal.Core.Messages.{AckCode, success, not_login, error}

-- heartbeatStatus: hbNotConnect, hbNotLogin, hbOK, hbError
pub data Status : Type 0 where
  hb_not_connect hb_not_login hb_ok hb_error : Status

pub record LocalPortal : Type 0 where
  pub status : Status
  pub last_transfer : ℕ
  pub conns : ℕ
  pub closes : ℕ

-- The loop's own variables, and the time for which its timer was last reset.
pub record Loop : Type 0 where
  pub portal : LocalPortal
  pub failed_time : ℕ
  pub interval : ℕ
  pub timer : ℕ

abbrev pub heartbeat_interval : ℕ
heartbeat_interval = 10 * second

-- How a request to the server ended: not sent, no response before the context was done, or a
-- response with the error of its header and its code.
pub data Reaction : Type 0 where
  not_sent : Error → Reaction
  no_response : Error → Reaction
  responded : String → AckCode → Reaction

-- connect
unfoldable pub connect : Option Error → LocalPortal → Option Error × LocalPortal
connect (some e) p = (some (with_message e "dial error"), p)
connect none p = (none, record p { status = hb_not_login; conns = p.conns + 1 })

login_code : AckCode → LocalPortal → Option Error × LocalPortal
login_code success p = (none, record p { status = hb_ok })
login_code _ p = (some (opaque "login failed"), p)

-- login
unfoldable pub login : Reaction → LocalPortal → Option Error × LocalPortal
unfolding login_code
login (not_sent e) p = (some (with_message e "send error"), p)
login (no_response e) p = (some (with_message e "login end"), p)
login (responded e code) p =
    if not (e == "") then (some (with_message (opaque e) "login error"), p) else login_code code p

-- What happens to the calls of one heartbeat: the dial of connect, the login, and the heartbeat
-- request itself; and whether the portal has been stopped.
pub record Network : Type 0 where
  pub dial : Option Error
  pub login_reaction : Reaction
  pub beat_reaction : Reaction
  pub stopped : Bool

or_else : Option Error → Status → Status
or_else none status = hb_ok
or_else (some e) status = status

recover_from : Status → Network → LocalPortal → Status × LocalPortal
unfolding or_else
recover_from hb_not_connect n p = let (e, p') = connect n.dial p in (or_else e hb_not_connect, p')
recover_from hb_not_login n p =
    let (e, p') = login n.login_reaction p in (or_else e hb_not_login, p')
recover_from _ n p = (hb_ok, p)

-- recoverHeartbeat
unfoldable pub recover_heartbeat : Network → LocalPortal → Status × LocalPortal
unfolding recover_from
recover_heartbeat n p = recover_from p.status n p

code_status : AckCode → Status
code_status not_login = hb_not_login
code_status _ = hb_ok

-- heartbeat behind recoverHeartbeat: its request, and the status that it returns.
unfoldable pub request_status : Bool → Reaction → Status
unfolding code_status
request_status stopped (not_sent e) =
    if stopped then hb_not_connect else if not (is_temporary e) then hb_not_connect else hb_error
request_status stopped (no_response e) = hb_error
request_status stopped (responded e code) = code_status code

unfoldable pub beat_after : Status → Network → Status
unfolding request_status
beat_after hb_ok n = request_status n.stopped n.beat_reaction
beat_after ret n = ret

-- heartbeat
unfoldable pub heartbeat : Network → LocalPortal → Status × LocalPortal
unfolding beat_after
heartbeat n p = let (ret, p') = recover_heartbeat n p in (beat_after ret n, p')

is_ok : Status → Bool
is_ok hb_ok = true
is_ok _ = false

interval_for : Status → ℕ
interval_for hb_ok = heartbeat_interval
interval_for hb_error = heartbeat_interval
interval_for _ = second * 1

-- The counting of failures: after five in a row the connection is closed.
count_failure : ℕ → Status → LocalPortal → ℕ → ℕ × LocalPortal
unfolding is_ok
count_failure now status p failed =
    if is_ok status
    then (0, record p { status = status; last_transfer = now })
    else if leb 5 (failed + 1)
    then (0, record p { status = hb_not_connect; closes = p.closes + 1 })
    else (failed + 1, record p { status = status })

counted : ℕ × LocalPortal → Loop
unfolding interval_for
counted (failed, p) = record {
  portal = p;
  failed_time = failed;
  interval = interval_for p.status;
  timer = interval_for p.status;
}

-- The loop's body behind heartbeat.
unfoldable pub beaten : ℕ → ℕ → Status × LocalPortal → Loop
unfolding count_failure counted
beaten now failed (status, p) = counted (count_failure now status p failed)

-- One round of heartbeatLoop, its timer having fired at `now`.
unfoldable pub tick : ℕ → Network → Loop → Loop
unfolding beaten
tick now n l =
    let beat = beaten now l.failed_time (heartbeat n l.portal) in
    if ltb (now - l.portal.last_transfer) l.interval
    then record l { timer = l.portal.last_transfer + l.interval - now }
    else beat

-- heartbeatLoop over the times at which the timer fires.
unfoldable pub heartbeat_loop : List (ℕ × Network) → Loop → Loop
heartbeat_loop [] l = l
heartbeat_loop ((now, n) ∷ more) l = heartbeat_loop more (tick now n l)
