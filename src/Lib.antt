-- ===== src/Lib.antt =====
-- http_portal: a server in front of browsers and the agents that connect to it and answer for it.
--
-- The server takes HTTP requests, looks up which agent serves the host, sends the request as one
-- message on the connection that this agent opened, and writes the messages that come back to the
-- browser. The agent hands each request to an http.Handler, whose response it cuts into messages.
-- An agent logs in under a name and sends heartbeats; the server removes an agent that stays
-- silent.
--
-- Core (core/net.go, core/types.go, the structs of core/portal.pb.go), used by both programs:
--   Core/Errors     NetError, newError, IsTemporary, IsClose, CalcDelay; Retry, Texts: proofs
--   Core/Messages   the messages and the names of methods
--   Core/Conn       a net.Conn with scripted faults, and the monad of code that reads and writes it
--   Core/Wire       Send and Receive; Bytes: encoding/binary; RoundTrip, Stream, Faults, Oversized,
--                   Progress, Calm: proofs
--     Wire/Senders  many goroutines in Send, with the lock of their context, over a schedule; Frame,
--                   Lock, Once, Serial: proofs
--   Core/Receiver   MessageReceiver, the channels of waiting requests; Sequence, Delivery: proofs
-- Portal (portal/portal.go, portal/websocket.go), the agent:
--   Portal/Writer   HttpResponseWriter; Loop, Bounds, Overfull, Stream, Copy: proofs about ReadFrom
--                   and Write
--   Portal/Agent    connect, login, heartbeat, heartbeatLoop as a machine over the answers of the
--                   network; Machine, Recovery: proofs
--   Portal/Session  the same with their messages, numbers and selects; Waiting, Refines, Sent: proofs
--     Session/Beats  recoverHeartbeat, heartbeat, heartbeatLoop; Shadow, Simulation: proofs
--   Portal/Service  getMsg, loginGetMsg and processMsg
--   Portal/Receive  the loop of receive; Run and Stop; Ending: proofs
--   Portal/Request  parseHttpRequest, BodyReader; Fields, Transparent (with the server's serveHTTP),
--                   Malformed: proofs
--   Portal/Websocket  websocketProxy and GetWebsocketConfig; Context: the wrappers
--                   of the context; Login, Protocols, Taken: proofs
--   Portal/Exchange   httpRequest, sendHttpError, handleWebsocketRequest; Served, Refusal, Crash:
--                   proofs
-- Agent (portal_agent/), the program that uses it:
--   Agent/Handler     handler.go: RequestHandler; Copies, Answers, through to DoRequest: proofs
--   Agent/Websocket   handler.go: WebsocketHandler; Positions, Addresses, Lines, Offers: proofs
--   Agent/Tunnel      handler.go: the goroutines of WebsocketHandler.ServeHTTP; Leak: proofs
--   Agent/Config      config.go: ReadConfig
--   Agent/Main        main.go: main; defaultConfigPath of config.go
-- Server (portal_server/), the server:
--   Server/Clients  client_manage.go: PortalClient, PortalManager; Invariant, Shutdown: proofs
--   Server/Relay    proxy_server.go: SetHosts, DoRequest; Response, Passed, Failures, Cleanup, Hosts:
--                   proofs;
--                   Schedule: DoRequest and keepConnection as two goroutines over a list of events
--   Server/Service  proxy_server.go: GetMsg, processMsg, Login, Heartbeat, SendHttpResponse and what
--                   keepConnection does at its end; Login, Safety, Relogin, Inbox, Refused, Granted,
--                   and Agreement with the agent: proofs
--   Server/Connection  proxy_server.go: keepConnection; Ending, Refusal, Responses: proofs
--   Server/Listener  proxy_server.go: NewProxyServer, Start, Stop, accept; Accepted: proofs
--   Server/Tunnel    proxy_server.go: transportDirect; Closing: proofs
--   Server/Config    config.go: ReadConfig and GetHost
--   Server/Main      main.go: main; runHttpServer of http_server.go
--   Server/Http     http_server.go: serveHTTP, and WriteHTTPError of core/net.go; Number: Atoi and
--                   Itoa; Depth, Chain: proofs about the headers of the portals; Report: errors;
--                   Body: readAll, and proofs
-- Log (ptlog/), the log of both programs.
-- System, both programs over one connection: Exchange and Login, a request of the agent and its
--   answer; Relay and Answer, the parts of a response on their way to DoRequest; Visit, a browser's
--   request on its way to the agent and the answer on its way back.
-- Base holds what all share; Tests runs the definitions and applies the theorems to small inputs.
--
-- State and calls. A Go function on an object is a function from the object to the object; the
-- methods of PortalManager, which hold its mutex, are single steps on a heap of clients and a map
-- of names. A panic is a value (`panic` of Outcome, `panics` of Step). Bytes are natural numbers;
-- uint32 is written out as four bytes, int32 is its bit pattern, time is in nanoseconds. Logging is
-- left out, and so are the values that are formatted into the texts of errors.
--
-- Parameters. The protobuf library is the record Codec, and IsCodec what the program relies on:
-- Unmarshal reads what Marshal wrote, XXX_Size is its length, a header with a method is not empty,
-- and no bytes are the empty message. What the buffer pool hands out, what a connection, a reader,
-- the browser's writer and the network do are inputs, given as scripts. transportDirect is an
-- argument of DoRequest; on its own it is a row of events, one for each turn of one of its
-- goroutines. The handlers of the package portal are arguments, which Agent/Handler and
-- Agent/Websocket fill; what net/url, ParseHTTPVersion, NewRequest, Client.Do, WriteSubset and the
-- YAML library do are arguments as well.
--
-- Fuel. The loop of ReadFrom runs on fuel, `reader_rounds`: one more than the pieces and the bytes
-- that the reader has. keepConnection and receive run on fuel too: a round takes at least one byte
-- or fault off the connection, so that one more than there are is enough. The loops over messages,
-- over map entries, over timer firings and over calls of Accept are recursion on a list.
--
-- Not modelled: the HTTP server that calls serveHTTP; two goroutines that read one connection after
-- a reconnect; core/signal.go, which hands a signal of the operating system to Stop; core.Sleep and
-- the wrappers of sync.Pool; what zap writes; and the generated code of
-- core/portal.pb.go.
pub mod Agent
pub mod Base
pub mod Core
pub mod Log
pub mod Portal
pub mod Server
pub mod System
pub mod Tests
