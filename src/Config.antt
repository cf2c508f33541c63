-- ===== src/Config.antt =====
-- src/config.rs: the configuration's types, with serde's defaults. Reading the file is serde's and the
-- `config` crate's work; the checks of a parsed configuration are in Config/Validate.antt, and the
-- comparison of a reload in Config/Reload.antt.
pub mod Validate
pub mod Paths
pub mod Seen
pub mod Loops
pub mod Valid
pub mod Errors
pub mod Faults
pub mod Order
mod Tests
use portiq.Base.{ℕ, Bool, true, List, [], Option, none, Str, text, Map}

-- `std::net::IpAddr`: four octets, or eight 16-bit segments.
pub data IpAddr : Type 0 where
  v4 : ℕ → ℕ → ℕ → ℕ → IpAddr
  v6 : List ℕ → IpAddr

-- `std::net::SocketAddr`: an address of version 6 also has its flow information and scope.
pub data SocketAddr : Type 0 where
  socket_v4 : ℕ → ℕ → ℕ → ℕ → ℕ → SocketAddr
  socket_v6 : List ℕ → ℕ → ℕ → ℕ → SocketAddr

-- `SocketAddr::new`.
abbrev pub socket_addr : IpAddr → ℕ → SocketAddr
socket_addr (v4 a b c d) port = socket_v4 a b c d port
socket_addr (v6 segments) port = socket_v6 segments port 0 0

-- `SocketAddr::ip`.
abbrev pub addr_ip : SocketAddr → IpAddr
addr_ip (socket_v4 a b c d port) = v4 a b c d
addr_ip (socket_v6 segments port flowinfo scope_id) = v6 segments

pub record AdminApiConfig : Type 0 where
  pub addr : SocketAddr

abbrev pub default_admin_api : AdminApiConfig
default_admin_api = record { addr = socket_addr (v4 127 0 0 1) 5678 }

pub data LogFormat : Type 0 where
  compact json : LogFormat

pub data Protocol : Type 0 where
  http https tcp : Protocol

pub record TlsConfig : Type 0 where
  pub cert_file : Str
  pub key_file : Str
  pub default : Bool
  pub hostnames : Option (List Str)

pub record Listener : Type 0 where
  pub name : Str
  pub addr : SocketAddr
  pub protocol : Protocol

pub record Upstream : Type 0 where
  pub target : Str
  pub weight : ℕ

pub record HttpServiceConfig : Type 0 where
  pub upstreams : List Upstream

pub record TcpServiceConfig : Type 0 where
  pub upstreams : List Upstream

pub data TcpTlsMode : Type 0 where
  terminate passthrough : TcpTlsMode

pub record TcpRouteConfig : Type 0 where
  pub listeners : List Str
  pub service : Str
  pub tls_mode : Option TcpTlsMode

pub record RouteConfig : Type 0 where
  pub hosts : Option (List Str)
  pub path : Option Str
  pub listeners : List Str
  pub service : Str
  pub middlewares : Option (List Str)

pub record AddPrefixConfig : Type 0 where
  pub prefix : Str

pub data RateLimitKeySource : Type 0 where
  ip_source : Option Str → RateLimitKeySource
  request_header : Str → RateLimitKeySource

abbrev pub default_key_source : RateLimitKeySource
default_key_source = ip_source none

-- `period` is a `Duration`, in nanoseconds.
pub record RateLimitConfig : Type 0 where
  pub source : RateLimitKeySource
  pub limit : ℕ
  pub period : ℕ

pub data MiddlewareConfig : Type 0 where
  add_prefix : AddPrefixConfig → MiddlewareConfig
  rate_limit : RateLimitConfig → MiddlewareConfig

pub record HttpConfig : Type 0 where
  pub middlewares : Map MiddlewareConfig
  pub services : Map HttpServiceConfig
  pub routes : List RouteConfig

abbrev pub default_http : HttpConfig
default_http = record { middlewares = []; services = []; routes = [] }

pub record TcpConfig : Type 0 where
  pub services : Map TcpServiceConfig
  pub routes : List TcpRouteConfig

abbrev pub default_tcp : TcpConfig
default_tcp = record { services = []; routes = [] }

pub record GatewayLog : Type 0 where
  pub level : Str
  pub format : LogFormat
  pub file_path : Str

pub record AccessLog : Type 0 where
  pub enabled : Bool
  pub format : LogFormat
  pub file_path : Str

abbrev pub default_log_level : Str
default_log_level = text "INFO"

abbrev pub default_access_log_enabled : Bool
default_access_log_enabled = true

abbrev pub default_log_file_path : Str
default_log_file_path = text "stdout"

abbrev pub default_upstream_weight : ℕ
default_upstream_weight = 1

abbrev pub default_config_version : ℕ
default_config_version = 1

abbrev pub default_log : GatewayLog
default_log = record {
  level = default_log_level;
  format = compact;
  file_path = default_log_file_path;
}

abbrev pub default_access_log : AccessLog
default_access_log = record {
  enabled = default_access_log_enabled;
  format = compact;
  file_path = default_log_file_path;
}

pub record GatewayConfig : Type 0 where
  pub version : ℕ
  pub admin_api : AdminApiConfig
  pub log : GatewayLog
  pub access_log : AccessLog
  pub tls : Option (List TlsConfig)
  pub listeners : List Listener
  pub http : HttpConfig
  pub tcp : TcpConfig
