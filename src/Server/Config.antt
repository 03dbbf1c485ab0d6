-- ===== src/Server/Config.antt =====
-- portal_server/config.go: the configuration of the server. The YAML library and the file system are
-- parameters: `unmarshal` fills in a configuration that has the defaults already.
use http_portal.Base.{ℕ, ◌*◌, ◌++◌, ◌∷◌, [], List, String, Text, ascii, ◌⊎◌, inl, inr}
use http_portal.Core.Errors.{Error, with_message, second}
use http_portal.Server.Http.Number.{ℤ, pos, itoa}

pub record LogConfig : Type 0 where
  pub path : Text
  pub name : Text
  pub max_size : ℤ
  pub max_backup : ℤ
  pub level : Text

pub record HttpConfig : Type 0 where
  pub listen : Text
  pub port : ℤ

pub record ProxyTimeoutConfig : Type 0 where
  pub send_request : ℤ
  pub receive_response : ℤ
  pub send_response : ℤ

pub record ProxyConfig : Type 0 where
  pub listen : Text
  pub port : ℤ
  pub portal : List (String × List Text)
  pub timeout : ProxyTimeoutConfig

pub record ServerConfig : Type 0 where
  pub http_server : HttpConfig
  pub proxy_server : ProxyConfig
  pub log : LogConfig

-- (*ProxyConfig).GetHost
unfoldable pub get_proxy_host : ProxyConfig → Text
get_proxy_host c = c.listen ++ 58 ∷ itoa c.port

-- (*HttpConfig).GetHost
unfoldable pub get_http_host : HttpConfig → Text
get_http_host c = c.listen ++ 58 ∷ itoa c.port

-- The configuration before the file is read into it.
abbrev pub default_config : ServerConfig
default_config = record {
  http_server = record { listen = ascii "127.0.0.1"; port = pos 80 };
  proxy_server = record {
    listen = ascii "127.0.0.1";
    port = pos 10625;
    portal = [];
    timeout = record {
      send_request = pos (10 * second);
      receive_response = pos (60 * second);
      send_response = pos (5 * second);
    };
  };
  log = record {
    path = ascii ".";
    name = ascii "server.log";
    max_size = pos 20;
    max_backup = pos 10;
    level = [];
  };
}

module _ (unmarshal : List ℕ → ServerConfig → Error ⊎ ServerConfig) where
  unmarshalled : Error ⊎ ServerConfig → Error ⊎ ServerConfig
  unmarshalled (inl e) = inl (with_message e "unmarshal yaml error")
  unmarshalled (inr config) = inr config

  -- ReadConfig, of what ioutil.ReadFile returns.
  unfoldable pub read_config : Error ⊎ List ℕ → Error ⊎ ServerConfig
  unfolding unmarshalled
  read_config (inl e) = inl (with_message e "read config error")
  read_config (inr data_bytes) = unmarshalled (unmarshal data_bytes default_config)
