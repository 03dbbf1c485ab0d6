-- ===== src/Agent/Main.antt =====
-- portal_agent/main.go and defaultConfigPath of portal_agent/config.go: the run of the agent, from its
-- flags to the end of LocalPortal.Run.
use Prim.Native.String.{◌++◌ as ◌+++◌}
use http_portal.Base.{
  ℕ, Bool, Option, List, [], ◌∷◌, Text, ◌⊎◌, inl, inr, insert, text_eq, if◌then◌else◌,
}
use http_portal.Core.Errors.{Error, error_text}
use http_portal.Core.Conn.{Outcome, ok, panic}
use http_portal.Log.{Level, ZapLogger, new_log, new_console_log}
use http_portal.Server.Http.Number.{ℤ}
use http_portal.Portal.Agent.{LocalPortal, Network, Reaction}
use http_portal.Portal.Receive.{new_local_portal, run}
use http_portal.Agent.Config.{AgentConfig, ServerConfig, TimeoutConfig, read_config}

-- defaultConfigPath: filepath.Abs of the program's directory, and path.Join.
unfoldable pub default_config_path : (Text → Text → Text) → Text → Error ⊎ Text → Outcome Text
default_config_path join default_name (inl e) = panic ("can't get config path, " +++ error_text e)
default_config_path join default_name (inr dir) = ok (join dir default_name)

-- startFlag
pub record StartFlag : Type 0 where
  pub config : Text
  pub verbose : Bool

-- What the program meets: the file of its configuration, the first Write of its log, and what Run does.
pub record World : Type 0 where
  pub file : Text → Error ⊎ List ℕ
  pub log_write : Option Error
  pub dial : Option Error
  pub login : Reaction
  pub ticks : List (ℕ × Network)

-- The fields of RequestHandler and WebsocketHandler.
pub record HandlerFields : Type 0 where
  pub host_rewrite : List (Text × Text)
  pub http_timeout : ℤ

-- The program behind NewLocalPortal, SetTimeout and SetWebsocketHandler.
pub record Program : Type 0 where
  pub log : ZapLogger
  pub name : Text
  pub remote_host : Text
  pub handler : HandlerFields
  pub socket_handler : HandlerFields
  pub timeout : TimeoutConfig

pub data Exit : Type 0 where
  panicked : Error → Exit
  exits : Program → LocalPortal → Exit

-- for k, v := range config.Agent.HostRewrite { … }
unfoldable pub copy_hosts : List (Text × Text) → List (Text × Text) → List (Text × Text)
copy_hosts [] to = to
copy_hosts ((k, v) ∷ more) to = copy_hosts more (insert k v to)

unfoldable pub program : ZapLogger → AgentConfig → Program
unfolding copy_hosts
program log c =
    let handler : HandlerFields = record {
      host_rewrite = copy_hosts c.host_rewrite [];
      http_timeout = c.timeout.http_read;
    } in
    record {
      log = log;
      name = c.name;
      remote_host = c.remote_addr;
      handler = handler;
      socket_handler = handler;
      timeout = c.timeout;
    }

logging : World → ServerConfig → Error ⊎ ZapLogger → Exit
unfolding program
logging w config (inl e) = panicked e
logging w config (inr log) =
    exits (program log config.agent) (run w.dial w.login w.ticks new_local_portal)

module _ (unmarshal : List ℕ → ServerConfig → Error ⊎ ServerConfig) (join : Text → Text → Text)
    (lower : Text → Text) (capital : Level → Text) (pid : ℤ) where
  configured : StartFlag → World → Error ⊎ ServerConfig → Exit
  unfolding logging
  configured f w (inl e) = panicked e
  configured f w (inr config) = logging w config (
      if f.verbose
      then inr (new_console_log join lower capital pid)
      else new_log join lower capital pid w.log_write config.log)

  -- main, behind flag.Parse.
  unfoldable pub main : StartFlag → World → Exit
  unfolding configured
  main f w = configured f w (read_config unmarshal (w.file f.config))
