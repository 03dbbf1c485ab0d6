-- ===== src/Core/Messages.antt =====
-- portal.proto, as the structs of core/portal.pb.go, and the names of core/types.go.
-- int32 is kept as its bit pattern below 2 ^ 32; no arithmetic but AddInt32 is done on it.
use text.Mathlib.Text.{starts_with}
use Prim.Native.String.{◌++◌}
use http_portal.Base.{ℕ, String, Bool, false, List, [], Text}

-- HttpRequest_Header
pub record HeaderField : Type 0 where
  pub key : String
  pub value : List Text

pub record HttpRequest : Type 0 where
  pub method : String
  pub url : Text
  pub req_proto : String
  pub header : List HeaderField
  pub body : List ℕ
  pub host : Text
  pub remote_addr : String

pub record HttpResponse : Type 0 where
  pub status : ℕ
  pub header : List HeaderField
  pub body : List ℕ
  pub not_finish : Bool

pub record LoginRequest : Type 0 where
  pub name : String
  pub resp_seq : ℕ

pub record HeartbeatPkg : Type 0 where
  pub timestamp : ℕ

pub data AckCode : Type 0 where
  success not_login error : AckCode

pub record AckResponse : Type 0 where
  pub code : AckCode

pub record RpcHeader : Type 0 where
  pub method : String
  pub error : String
  pub seq : ℕ

-- proto.Message: the messages of this program that travel behind an RpcHeader.
pub data Message : Type 0 where
  http_request : HttpRequest → Message
  http_response : HttpResponse → Message
  login_request : LoginRequest → Message
  heartbeat : HeartbeatPkg → Message
  ack : AckResponse → Message

-- The type of a message: what a new message is made from.
pub data Kind : Type 0 where
  a_request a_response a_login a_heartbeat an_ack : Kind

abbrev pub kind_of : Message → Kind
kind_of (http_request m) = a_request
kind_of (http_response m) = a_response
kind_of (login_request m) = a_login
kind_of (heartbeat m) = a_heartbeat
kind_of (ack m) = an_ack

-- &core.HttpRequest{} and so on.
abbrev pub new_message : Kind → Message
new_message a_request = http_request (record {
  method = "";
  url = [];
  req_proto = "";
  header = [];
  body = [];
  host = [];
  remote_addr = "";
})
new_message a_response =
    http_response (record { status = 0; header = []; body = []; not_finish = false })
new_message a_login = login_request (record { name = ""; resp_seq = 0 })
new_message a_heartbeat = heartbeat (record { timestamp = 0 })
new_message an_ack = ack (record { code = success })

abbrev pub resp_method_prefix : String
resp_method_prefix = "RESP_"

abbrev pub method_login : String
method_login = "login"

abbrev pub method_heartbeat : String
method_heartbeat = "hb"

abbrev pub method_http_do : String
method_http_do = "http"

abbrev pub resp_method_login : String
resp_method_login = "RESP_login"

abbrev pub resp_method_heartbeat : String
resp_method_heartbeat = "RESP_hb"

abbrev pub resp_method_http_do : String
resp_method_http_do = "RESP_http"

unfoldable pub is_resp_method : String → Bool
is_resp_method m = starts_with m resp_method_prefix

unfoldable pub new_response_header : RpcHeader → RpcHeader
new_response_header h = record { method = resp_method_prefix ++ h.method; error = ""; seq = h.seq }
