-- ===== src/Server/Http/Report.antt =====
-- portal_server/http_server.go: what the browser is told of an error of DoRequest.
use http_portal.Base.{
  ℕ, ◌≡◌, ◌∙◌, refl, String, Option, none, some, List, [], ◌∷◌, ◌++◌, arith, ascii, inl, inr,
  Option-cases,
}
use http_portal.Core.Errors.{Error, error_text}
use http_portal.Core.Messages.{HttpRequest}
use http_portal.Core.Wire.{Codec}
use http_portal.Server.Clients.{Reply, done}
use http_portal.Server.Relay.{
  HttpWriter, Forwarded, ProxyServer, Answer, do_request, write_answered,
}
use http_portal.Server.Http.{
  Request, ready, prepare, Served, serve_http, serve_prepared, reply_error, write_http_error,
}

pub written :
    (msg : String) (code : ℕ) (w : HttpWriter)
    → w.answers ≡ []
    → let (e, w') = write_http_error msg code w in
      (e ≡ none)
      × (w'.body ≡ w.body ++ (ascii msg ++ 10 ∷ []))
      × (w.status ≡ none → w'.status ≡ some code)
      × ((c : ℕ) → w.status ≡ some c → w'.status ≡ some c)
unfolding write_http_error write_answered
written msg code w a = elim (Option-cases w.status) [
  | inl new ↦ rw (new, a) (refl, refl, λ e. refl, λ c e. grind arith)
  | inr (c, old) ↦ rw (old, a) (refl, refl, λ e. grind arith, λ d e. old ∙ e)
]

-- Where a request is passed to DoRequest and DoRequest returns an error, the browser that takes the
-- next Write gets the text of the error and a line's end behind what it had got, and the status of
-- the error if no status had been written before; a status that had been written stays. The server
-- is as DoRequest left it.
pub serve_http-do_request :
    (codec : Codec) (t : ℕ → HttpWriter → Forwarded) (now : ℕ) (timeout : Option ℕ) (r : Request)
    (q : HttpRequest) (replies : List Reply) (w : HttpWriter) (s : ProxyServer) (a : Answer)
    (e : Error)
    → prepare r ≡ ready q
    → do_request codec t now timeout q replies w s ≡ done a
    → a.error ≡ some e
    → a.writer.answers ≡ []
    → (out : Served) × (serve_http codec t now timeout r replies w s ≡ done out)
      × (out.error ≡ none)
      × (out.server ≡ a.server)
      × (out.writer.body ≡ a.writer.body ++ (ascii (error_text e) ++ 10 ∷ []))
      × (a.writer.status ≡ none → out.writer.status ≡ some a.code)
      × ((c : ℕ) → a.writer.status ≡ some c → out.writer.status ≡ some c)
unfolding serve_http serve_prepared reply_error
serve_http-do_request codec t now timeout r q replies w s a e passed run failed calm =
    let (x, w') = write_http_error (error_text e) a.code a.writer in
    let (fine, body, new, old) = written (error_text e) a.code a.writer calm in
    (
      record { error = x; writer = w'; server = a.server },
      rw (passed, serve_prepared, run, failed) refl,
      fine,
      refl,
      body,
      new,
      old,
    )

-- Where DoRequest returns no error, nothing is added to what it wrote.
pub serve_http-passed :
    (codec : Codec) (t : ℕ → HttpWriter → Forwarded) (now : ℕ) (timeout : Option ℕ) (r : Request)
    (q : HttpRequest) (replies : List Reply) (w : HttpWriter) (s : ProxyServer) (a : Answer)
    → prepare r ≡ ready q
    → do_request codec t now timeout q replies w s ≡ done a
    → a.error ≡ none
    → serve_http codec t now timeout r replies w s
      ≡ done (record { error = none; writer = a.writer; server = a.server })
unfolding serve_http serve_prepared reply_error
serve_http-passed codec t now timeout r q replies w s a passed run fine =
    rw (passed, serve_prepared, run, fine) refl
