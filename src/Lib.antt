-- ===== src/Lib.antt =====
-- A verification library for portiq, an HTTP and TCP gateway in Rust.
--
-- The program's parts, and the files that model them (paths from the repository's root):
--   src/config.rs: the configuration's types are Config.antt; `GatewayConfig::validate` is
--     `Config.Validate.validate`, its loops `check_listeners`, `check_services`, `check_routes`;
--     `load_config`, `reload_config` and `static_config_same` are in Reload.antt.
--   src/load_balancer/mod.rs: `WeightedRoundRobin` with `new` and `select` is LoadBalancer.antt; its two
--     atomic operations, interleaved by threads, are LoadBalancer/Threads.antt.
--   src/service.rs: `ServiceRegistry` is Service.antt.
--   src/router.rs, src/error.rs: `Router`, its tables, matching and lookups are Router.antt.
--   src/gateway_runtime.rs: `GatewayRuntime` is Runtime.antt.
--   src/api.rs: the two handlers are in Reload.antt, the server around them is Api.antt.
--   src/middleware/rate_limiter/token_bucket.rs: the token buckets are RateLimiter.antt.
--   src/middleware: `Next::run` and the four middlewares are Middleware.antt; the registry, its factories
--     and `create_chain` are Middleware/Registry.antt.
--   src/server/http.rs, src/utils.rs: `handle_client`, `send_upstream` and their helpers are Server.antt.
--   src/server/tcp.rs: `handle_tcp_client` and its `send_upstream` (`copy_upstream`) are Server/Tcp.antt.
--   src/server/mod.rs: `run_tcp_listener` with its loop `accept_loop`, and the connections of
--     src/server/http.rs, `handle_https` and `serve_http_connection`, are Server/Accept.antt.
--   src/server/tls.rs, src/utils.rs: loading certificates, `SNICertificateResolver` and
--     `init_rustls_server_config` are Server/Tls.antt.
--   src/logger.rs: `init_layers` and `get_log_writer` are Logger.antt.
--   src/main.rs, src/utils.rs: `main` and `graceful_shutdown` are Startup.antt.
-- A runtime holds a router and the configuration it was built from; the router holds the registry,
-- and the registry a balancer for each service. A request asks the router for a route and the
-- registry for an upstream, and passes the middlewares of the route on its way there; a reload
-- replaces the runtime. Gateway.antt puts them together: what `main` starts, and then requests, TCP
-- connections and reloads as steps in any order; in Gateway/Flight.antt requests and reloads
-- overlap: anything may come between the lookup of a request and its chain of middlewares, between
-- the steps of the chain, which are Middleware/Stages.antt, and between preparing and storing a
-- reload. The theorems about a part stand in the modules below it,
-- with tests in its `Tests`; Samples.antt has the inputs of the tests.
--
-- How the source is rendered. A `str` is its UTF-8 bytes (`Str`); every literal of the program is
-- ASCII. A `HashMap` is its entries in the order of iteration, which the source does not fix, so
-- what holds for every list holds for every order; Config/Order.antt, Server/Order.antt and
-- Gateway/Order.antt compare two orders. A `HashSet` is the list of its elements. A panic
-- is `panicked`, an `Err` is `err`. What is changed behind a shared reference, the balancers'
-- cursors and the bucket store, is passed along: an operation returns the state after it. `usize`
-- has 64 bits; the cursor's `x + 1` wraps at 2 ^ 64. Texts that `format!` builds for errors are
-- constructors with a function `message`. A `PathBuf` is its text, and `==` compares the components,
-- which Config/Paths.antt takes apart as on Unix.
--
-- Parameters. What the `config` crate answers for a path is a function `read`. `f64` is the record
-- `Float` with the facts `IsIeee` of IEEE 754, which RateLimiter/Billionths.antt meets by exact
-- arithmetic, and with those of its rounding, `IsRounded`, which RateLimiter/Fixed.antt meets. What
-- the middlewares and the server use of http, hyper, uuid and reqwest is the record `Crates`, with
-- the documented facts `IsHyper`, by which the names of headers ignore case; Middleware/Plain.antt
-- meets them; the raw TCP proxy has the record `Network`. Files of certificates, PEM and rustls are the record
-- `Rustls`, with the documented facts `IsRustls` of its resolver; Server/PlainTls.antt meets them.
-- Log files and what a level filter of tracing lets through are the record `LogSystem`. These and
-- the client of reqwest make up the `Environment` of `main`. Which handler axum calls for a request
-- is the record `Axum`, with the documented facts `IsAxum`; of URIs the facts `IsUri` and `IsUriText`
-- are used.
-- What `select!` takes up in the accept loop is a list of events. The body of a request is what
-- collecting it gives, and sending to upstreams is a function of what was sent before.
-- `Instant::now()` is an argument. That a configuration's services `Fits` a balancer says that a
-- service has at most 65,535 upstreams, which `new` asserts, and 32-bit weights, which the field's
-- type guarantees.
--
-- Fuel. Only `show_number` takes fuel: each round drops a decimal digit, so a number is enough fuel
-- for itself.
--
-- Not modelled: axum's own answers, and the protocols of a connection: hyper gives the requests of
-- one, here one after another. What happens while an upstream is waited for comes before or after
-- the call of the handler. A request that panics ends its task and is not a step. Sockets, timers,
-- signals and the writing of logs are the work of libraries.
pub mod Api
pub mod Base
pub mod Config
pub mod LoadBalancer
pub mod Service
pub mod Router
pub mod Runtime
pub mod Reload
pub mod RateLimiter
pub mod Middleware
pub mod Server
pub mod Logger
pub mod Startup
pub mod Gateway
pub mod Samples
