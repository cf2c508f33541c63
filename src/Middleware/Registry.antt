-- ===== src/Middleware/Registry.antt =====
-- `MiddlewareRegistry` (src/middleware/registry.rs) with its factories, and the chain of a route. The
-- store that `RateLimiterFactory` hands to its limiters is a part of `World`.
use portiq.Base.{
  ◌<◌, List, [], ◌∷◌, ◌++◌, Option, none, some, Str, text, Map, get, insert, Exec, returned,
  panicked, ◌>>=◌,
}
use portiq.Config
use portiq.Config.{MiddlewareConfig, RateLimitConfig}
use portiq.RateLimiter.{new_limiter}
use portiq.Middleware.Extern.{Crates}
use portiq.Middleware.{Middleware, request_id, access_logger, add_prefix, rate_limiter}

abbrev pub request_id_middleware : Str
request_id_middleware = text "request_id"

abbrev pub access_logger_middleware : Str
access_logger_middleware = text "access_logger"

abbrev pub add_prefix_middleware : Str
add_prefix_middleware = text "add_prefix"

abbrev pub rate_limit_middleware : Str
rate_limit_middleware = text "rate_limit"

-- `Box<dyn MiddlewareFactory>`.
pub data MiddlewareFactory : Type 0 where
  request_id_factory : MiddlewareFactory
  access_logger_factory : MiddlewareFactory
  add_prefix_factory : MiddlewareFactory
  rate_limiter_factory : MiddlewareFactory

unfoldable pub init : Map MiddlewareFactory
init = insert rate_limit_middleware rate_limiter_factory (
    insert add_prefix_middleware add_prefix_factory (
      insert access_logger_middleware access_logger_factory
        (insert request_id_middleware request_id_factory [])))

module _ (ext : Crates) where
  unfoldable pub create : MiddlewareFactory → Option MiddlewareConfig → Exec (Middleware ext)
  create request_id_factory config = returned request_id
  create access_logger_factory config = returned access_logger
  create add_prefix_factory (some (Config.add_prefix cfg)) = returned (add_prefix cfg.prefix)
  create add_prefix_factory (some (Config.rate_limit cfg)) = panicked
  create add_prefix_factory none = panicked
  create rate_limiter_factory (some (Config.rate_limit cfg)) = do
    limiter ← new_limiter ext.float cfg.source cfg.limit cfg.period
    returned (rate_limiter limiter)
  create rate_limiter_factory (some (Config.add_prefix cfg)) = panicked
  create rate_limiter_factory none = panicked

  -- `self.factories.get(name).map(|factory| factory.create(config))`, pushed if it is there.
  unfoldable pub push_created :
      Option MiddlewareFactory
      → Option MiddlewareConfig
      → List (Middleware ext)
      → Exec (List (Middleware ext))
  push_created none config pushed = returned pushed
  push_created (some factory) config pushed = do
    middleware ← create factory config
    returned (pushed ++ middleware ∷ [])

  abbrev pub factory_name : MiddlewareConfig → Str
  factory_name (Config.add_prefix cfg) = add_prefix_middleware
  factory_name (Config.rate_limit cfg) = rate_limit_middleware

  -- The middlewares of the configuration, after those that were pushed.
  unfoldable pub extend :
      Map MiddlewareFactory
      → List MiddlewareConfig
      → List (Middleware ext)
      → Exec (List (Middleware ext))
  extend factories [] pushed = returned pushed
  extend factories (config ∷ configs) pushed = do
    pushed' ← push_created (get (factory_name config) factories) (some config) pushed
    extend factories configs pushed'

  unfoldable pub create_chain :
      Map MiddlewareFactory → List MiddlewareConfig → Exec (List (Middleware ext))
  create_chain factories middlewares = do
    ids ← push_created (get request_id_middleware factories) none []
    logged ← push_created (get access_logger_middleware factories) none ids
    extend factories middlewares logged

  -- A rate limit that allows nothing, or in no time, is none.
  abbrev pub Starts : MiddlewareConfig → Type 0
  Starts (Config.add_prefix cfg) = Unit
  Starts (Config.rate_limit cfg) = (0 < cfg.limit) × (0 < cfg.period)

  abbrev pub middleware_of : MiddlewareConfig → Middleware ext
  middleware_of (Config.add_prefix cfg) = add_prefix cfg.prefix
  middleware_of (Config.rate_limit cfg) =
      rate_limiter (record { source = cfg.source; limit = cfg.limit; duration = cfg.period })
