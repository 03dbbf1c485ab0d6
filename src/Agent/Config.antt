-- ===== src/Agent/Config.antt =====
-- portal_agent/config.go: the configuration of the agent. The YAML library and the file system are
-- parameters: `unmarshal` fills in a configuration that has the defaults already.
use http_portal.Base.{
  ℕ, ◌*◌, ◌≡◌, ◌≢◌, [], List, Text, ascii, ◌⊎◌, inl, inr, text_eq, string_eq, if◌then◌else◌, eqb,
  length, arith, Bool-cases,
}
use http_portal.Core.Errors.{Error, opaque, with_message, second}
use http_portal.Server.Http.Number.{ℤ, pos}
use http_portal.Server.Config.{LogConfig}

pub record TimeoutConfig : Type 0 where
  pub server_connect : ℤ
  pub server_write : ℤ
  pub http_read : ℤ

pub record AgentConfig : Type 0 where
  pub remote_addr : Text
  pub name : Text
  pub host_rewrite : List (Text × Text)
  pub timeout : TimeoutConfig

pub record ServerConfig : Type 0 where
  pub agent : AgentConfig
  pub log : LogConfig

abbrev pub default_config : ServerConfig
default_config = record {
  agent = record {
    remote_addr = [];
    name = [];
    host_rewrite = [];
    timeout = record {
      server_connect = pos (5 * second);
      server_write = pos (5 * second);
      http_read = pos 0;
    };
  };
  log = record {
    path = ascii ".";
    name = ascii "agent.log";
    max_size = pos 20;
    max_backup = pos 10;
    level = [];
  };
}

module _ (unmarshal : List ℕ → ServerConfig → Error ⊎ ServerConfig) where
  checked : Error ⊎ ServerConfig → Error ⊎ ServerConfig
  checked (inl e) = inl (with_message e "unmarshal yaml error")
  checked (inr config) =
      if eqb (length config.agent.name) 0
      then inl (opaque "agent.name not configured")
      else if eqb (length config.agent.remote_addr) 0
      then inl (opaque "agent.remote_addr not configured")
      else inr config

  -- ReadConfig, of what ioutil.ReadFile returns.
  unfoldable pub read_config : Error ⊎ List ℕ → Error ⊎ ServerConfig
  unfolding checked
  read_config (inl e) = inl (with_message e "read config error")
  read_config (inr data_bytes) = checked (unmarshal data_bytes default_config)

  checked-named :
      (r : Error ⊎ ServerConfig) (config : ServerConfig)
      → checked r ≡ inr config
      → (r ≡ inr config) × (config.agent.name ≢ []) × (config.agent.remote_addr ≢ [])
  unfolding checked
  checked-named (inl e) config h = cc
  checked-named (inr got) config h = elim (Bool-cases (eqb (length got.agent.name) 0)) [
    | inl bare ↦ ground arith
    | inr named ↦ ground arith
  ]
