-- ===== src/Server/Main.antt =====
-- portal_server/main.go and, in portal_server/http_server.go, runHttpServer and stopper: the run of the
-- server, from its flags to its end. The goroutines of the connections are those of
-- Server.Connection; net/http, which calls serveHTTP, ends with an error of ListenAndServe, which is
-- only logged.
use Prim.Native.String.{◌++◌ as ◌+++◌}
use http_portal.Base.{ℕ, String, Bool, Option, List, Text, ◌⊎◌, inl, inr, if◌then◌else◌}
use http_portal.Core.Errors.{Error, error_text}
use http_portal.Core.Conn.{Outcome, ok, panic}
use http_portal.Log.{Level, ZapLogger, new_log, new_console_log}
use http_portal.Server.Http.Number.{ℤ}
use http_portal.Server.Clients.{State, Step, done, panics}
use http_portal.Server.Relay.{ProxyServer, set_hosts}
use http_portal.Server.Listener.{
  Turn, Accepting, serving, returned, crashed, new_proxy_server, start, stop,
}
use http_portal.Server.Config.{
  ServerConfig, ProxyTimeoutConfig, get_proxy_host, get_http_host, read_config,
}

-- defaultConfig: filepath.Abs of the program's directory, and path.Join.
unfoldable pub default_config_path : (Text → Text → Text) → Text → Error ⊎ Text → Outcome Text
default_config_path join default_name (inl e) = panic ("can't get config path, " +++ error_text e)
default_config_path join default_name (inr dir) = ok (join dir default_name)

-- startFlag
pub record StartFlag : Type 0 where
  pub config : Text
  pub verbose : Bool

-- What the program meets: the file of its configuration, the first Write of its log, the error of
-- listen, and the rounds of accept until ListenAndServe returns.
pub record World : Type 0 where
  pub file : Text → Error ⊎ List ℕ
  pub log_write : Option Error
  pub listen : Option Error
  pub turns : List Turn

-- A program that runs: its log, the addresses on which it listens, its hosts and timeouts.
pub record Program : Type 0 where
  pub log : ZapLogger
  pub proxy_host : Text
  pub http_host : Text
  pub proxy : ProxyServer
  pub timeout : ProxyTimeoutConfig

-- How main ends: a panic with an error before it serves, the crash of a goroutine, or its return.
pub data Exit : Type 0 where
  panicked : Error → Exit
  crashes : String → Exit
  exits : Program → State → Exit

-- server.Stop(), behind ListenAndServe.
stopped : Program → Step State → Exit
stopped p (panics s) = crashes s
stopped p (done s) = exits p s

-- runHttpServer, at the state that accept has reached.
unfoldable pub run_http_server : Program → Accepting → Exit
unfolding stopped
run_http_server p (serving delay s) = stopped p (stop s)
run_http_server p (returned s) = stopped p (stop s)
run_http_server p (crashed s) = crashes s

-- proxyServer.Start(), whose error goes to log.Panic.
started : Program → Error ⊎ Accepting → Exit
unfolding run_http_server
started p (inl e) = panicked e
started p (inr a) = run_http_server p a

module _ (unmarshal : List ℕ → ServerConfig → Error ⊎ ServerConfig) (join : Text → Text → Text)
    (lower : Text → Text) (capital : Level → Text) (pid : ℤ) where
  -- NewProxyServer, SetHosts and SetTimeout.
  abbrev pub program : ZapLogger → ServerConfig → Program
  program log config = record {
    log = log;
    proxy_host = get_proxy_host config.proxy_server;
    http_host = get_http_host config.http_server;
    proxy = set_hosts config.proxy_server.portal new_proxy_server;
    timeout = config.proxy_server.timeout;
  }

  logging : World → ServerConfig → Error ⊎ ZapLogger → Exit
  unfolding started
  logging w config (inl e) = panicked e
  logging w config (inr log) =
      let p = program log config in started p (start w.listen w.turns p.proxy.clients)

  configured : StartFlag → World → Error ⊎ ServerConfig → Exit
  unfolding logging
  configured f w (inl e) = panicked e
  configured f w (inr config) = logging w config (
      if f.verbose
      then inr (new_console_log join lower capital pid)
      else new_log join lower capital pid w.log_write config.log)

  -- main, behind flag.Parse.
  unfoldable pub main : StartFlag → World → Exit
  unfolding configured
  main f w = configured f w (read_config unmarshal (w.file f.config))
