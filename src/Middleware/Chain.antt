-- ===== src/Middleware/Chain.antt =====
-- `MiddlewareRegistry::create_chain` (src/middleware/registry.rs): what the chain of a route is.
use portiq.Base.{
  ◌≡◌, ◌⊎◌, inl, inr, refl, sym, ap, ltb, List, [], ◌∷◌, ◌++◌, map, some, get, insert, returned,
  panicked, All, Any, here, there, ◌==◌, arith, Bool-cases, append_assoc, append-nil,
}
use portiq.Config
use portiq.Config.{MiddlewareConfig}
use portiq.RateLimiter.{new_limiter}
use portiq.Middleware.Extern.{Crates}
use portiq.Middleware.{Middleware, request_id, access_logger}
use portiq.Middleware.Registry.{
  create, push_created, extend, create_chain, factory_name, Starts, middleware_of, init,
}

module _ (ext : Crates) where
  -- The factory of a middleware makes it, or panics on a rate limit of nothing.
  push_created-cases :
      (config : MiddlewareConfig) (pushed : List (Middleware ext))
      → (Starts ext config
          × (push_created ext (get (factory_name ext config) init) (some config) pushed
              ≡ returned (pushed ++ middleware_of ext config ∷ [])))
        ⊎ ((¬ Starts ext config)
            × (push_created ext (get (factory_name ext config) init) (some config) pushed
                ≡ panicked))
  unfolding push_created create init get insert ◌==◌ new_limiter
  push_created-cases (Config.add_prefix cfg) pushed = inl (tt, refl)
  push_created-cases (Config.rate_limit cfg) pushed = elim (Bool-cases (ltb 0 cfg.limit)) [
    | inr e ↦ inr (λ s. ground (arith, e, s.0), rw e refl)
    | inl e ↦ elim (Bool-cases (ltb 0 cfg.period)) [
      | inr e' ↦ inr (λ s. ground (arith, e', s.1), rw (e, e') refl)
      | inl e' ↦ inl ((ground arith, ground arith), rw (e, e') refl)
    ]
  ]

  extend_cases :
      (configs : List MiddlewareConfig) (pushed : List (Middleware ext))
      → (All (Starts ext) configs
          × (extend ext init configs pushed ≡ returned (pushed ++ map (middleware_of ext) configs)))
        ⊎ (Any (λ c. ¬ Starts ext c) configs × (extend ext init configs pushed ≡ panicked))
  unfolding extend
  extend_cases [] pushed = inl (tt, ap returned (sym (append-nil pushed)))
  extend_cases (config ∷ configs) pushed = elim (push_created-cases config pushed) [
    | inr (bad, e) ↦ inr (here bad, rw e refl)
    | inl (good, e) ↦ elim (extend_cases configs (pushed ++ middleware_of ext config ∷ [])) [
      | inl (all, e') ↦ inl ((good, all), rw (e, e') (ap returned (append_assoc pushed _ _)))
      | inr (any, e') ↦ inr (there any, rw (e, e') refl)
    ]
  ]

  -- The chain starts with the request id and the access logger, and goes on with the configured
  -- middlewares in their order; creating it panics exactly if some rate limit has limit or period 0.
  pub create_chain-cases :
      (configs : List MiddlewareConfig)
      → (All (Starts ext) configs
          × (create_chain ext init configs
              ≡ returned (request_id ∷ access_logger ∷ map (middleware_of ext) configs)))
        ⊎ (Any (λ c. ¬ Starts ext c) configs × (create_chain ext init configs ≡ panicked))
  unfolding create_chain push_created create init get insert ◌==◌
  create_chain-cases configs = extend_cases configs (request_id ∷ access_logger ∷ [])
