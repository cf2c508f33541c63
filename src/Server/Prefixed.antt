-- ===== src/Server/Prefixed.antt =====
-- The URL under which `handle_client` (src/server/http.rs) sends a request to an upstream, after the
-- prefixes that src/middleware/add_prefix.rs puts before its path.
use portiq.Base.{
  arith, ◌≡◌, ◌≢◌, ◌⊎◌, inl, inr, refl, sym, ap, subst, ◌∙◌, List, [], ◌∷◌, ◌++◌, map, some, Str,
  get, All, All-append, Option-cases, append_assoc, some-injective,
}
use portiq.Config
use portiq.Config.{GatewayConfig, HttpServiceConfig, MiddlewareConfig, Upstream}
use portiq.LoadBalancer.Shares.{Weighs}
use portiq.Router.{HttpRoute, Router}
use portiq.Router.Route.{IsBest}
use portiq.Middleware.Extern.{Crates, Outgoing}
use portiq.Middleware.{Request, Response, World, query_params}
use portiq.Middleware.Registry.{middleware_of}
use portiq.Middleware.Answers.{prefix_uri, moved_uri}
use portiq.Server.{route_middlewares}
use portiq.Server.Chained.{HasPath, IsUri}

-- A text that begins with a slash, and one without a fragment.
abbrev pub Rooted : Str → Type 0
Rooted s = (rest : Str) × (s ≡ b'/' ∷ rest)

abbrev pub Plain : Str → Type 0
Plain s = All (λ b. b ≢ b'#') s

-- The documented behaviour of the path and query of URIs: it has no fragment, one that begins with a
-- slash is the path with its query, and a text that begins with a slash and has no fragment is read
-- as it is.
pub record IsUriText (ext : Crates) : Type 0 where
  pub as_str-Plain : (pq : ext.PathAndQuery) → Plain (ext.as_str pq)
  pub as_str-parts :
      (uri : ext.Uri) (pq : ext.PathAndQuery)
      → ext.path_and_query uri ≡ some pq
      → Rooted (ext.as_str pq)
      → ext.path uri ++ query_params ext (ext.query uri) ≡ ext.as_str pq
  pub parse-as_str :
      (s : Str) (pq : ext.PathAndQuery)
      → Rooted s
      → Plain s
      → ext.parse_path_and_query s ≡ some pq
      → ext.as_str pq ≡ s

-- What the configured middlewares put before a path: the last prefix comes first.
unfoldable pub prefixes : List MiddlewareConfig → Str
prefixes [] = []
prefixes (Config.add_prefix cfg ∷ configs) = prefixes configs ++ cfg.prefix
prefixes (Config.rate_limit cfg ∷ configs) = prefixes configs

-- A prefix begins with a slash and has no fragment.
abbrev pub RootedPrefix : MiddlewareConfig → Type 0
RootedPrefix (Config.add_prefix cfg) = Rooted cfg.prefix × Plain cfg.prefix
RootedPrefix (Config.rate_limit cfg) = Unit

module _ (ext : Crates) (uris : IsUri ext) (texts : IsUriText ext) where
  prefix_uri-text :
      (prefix : Str) (uri uri' : ext.Uri) (pq : ext.PathAndQuery)
      → Rooted prefix
      → Plain prefix
      → ext.path_and_query uri ≡ some pq
      → Rooted (ext.as_str pq)
      → prefix_uri ext prefix uri ≡ some uri'
      → (pq' : ext.PathAndQuery) × (ext.path_and_query uri' ≡ some pq')
        × (ext.as_str pq' ≡ prefix ++ ext.as_str pq)
  prefix_uri-text prefix uri uri' pq (rest, begins) plain placed rooted moved =
      let whole = (prefix ++ ext.path uri) ++ query_params ext (ext.query uri) in
      let text_of : whole ≡ prefix ++ ext.as_str pq =
        append_assoc prefix (ext.path uri) _
        ∙ ap (λ t. prefix ++ t) (texts.as_str-parts uri pq placed rooted) in
      let begins' = ap (λ p. p ++ ext.as_str pq) begins in
      elim (Option-cases (ext.parse_path_and_query whole)) [
        | inl fails ↦ cc (rw (prefix_uri, fails) at moved)
        | inr (pq', parsed) ↦
            let (uri₁, e, placed', _) =
              uris.replaces uri pq pq' whole placed
                (subst HasPath (sym (text_of ∙ begins')) (omega arith)) parsed in
            let same = some-injective (sym e ∙ (rw (prefix_uri, parsed) at moved)) in
            (
              pq',
              rw (← same) placed',
              texts.parse-as_str whole pq' (_, text_of ∙ begins')
                    (subst Plain (sym text_of)
                      (All-append _ prefix _ plain (texts.as_str-Plain pq)))
                    parsed
                  ∙ text_of,
            )
      ]

  pub moved_uri-text :
      (configs : List MiddlewareConfig) (uri uri' : ext.Uri) (pq : ext.PathAndQuery)
      → All RootedPrefix configs
      → ext.path_and_query uri ≡ some pq
      → Rooted (ext.as_str pq)
      → moved_uri ext (map (middleware_of ext) configs) uri ≡ some uri'
      → (pq' : ext.PathAndQuery) × (ext.path_and_query uri' ≡ some pq')
        × (ext.as_str pq' ≡ prefixes configs ++ ext.as_str pq)
  unfolding prefixes
  moved_uri-text [] uri uri' pq roots placed rooted moved =
      (pq, rw (← some-injective moved) placed, refl)
  moved_uri-text (Config.rate_limit cfg ∷ configs) uri uri' pq roots placed rooted moved =
      moved_uri-text configs uri uri' pq roots.1 placed rooted moved
  moved_uri-text (Config.add_prefix cfg ∷ configs) uri uri' pq roots placed rooted moved =
      elim (Option-cases (prefix_uri ext cfg.prefix uri)) [
        | inl fails ↦ cc (rw (moved_uri, fails) at moved)
        | inr (uri₁, first) ↦
            let ((rest, begins), plain) = roots.0 in
            let (pq₁, placed₁, e) =
              prefix_uri-text cfg.prefix uri uri₁ pq (rest, begins) plain placed rooted first in
            let rooted₁ : Rooted (ext.as_str pq₁) = (_, e ∙ ap (λ p. p ++ ext.as_str pq) begins) in
            let (pq₂, placed₂, e₂) =
              moved_uri-text configs uri₁ uri' pq₁ roots.1 placed₁ rooted₁
                (rw (moved_uri, first) at moved) in
            (
              pq₂,
              placed₂,
              e₂
                  ∙ ap (λ t. prefixes configs ++ t) e
                  ∙ sym (append_assoc (prefixes configs) cfg.prefix (ext.as_str pq)),
            )
      ]

-- A request was sent to an upstream with a weight, of the service of the best route, under the URL of
-- the upstream, then the prefixes of the route, then the path and query of the client's request.
pub record Prefixed (ext : Crates) (cfg : GatewayConfig) (router : Router) (host listener : Str)
    (req : Request ext) (pq : ext.PathAndQuery) (w w' : World ext) : Type 0 where
  pub route : HttpRoute
  pub upstream : Upstream
  pub request : Outgoing
  pub best : IsBest host (ext.path req.uri) listener router.http route
  pub weighed :
      (c : HttpServiceConfig) × (get route.service cfg.http.services ≡ some c)
      × Weighs upstream c.upstreams
  pub sent : w'.sent ≡ w.sent ++ request ∷ []
  pub url :
      request.url
      ≡ upstream.target
        ++ (prefixes (route_middlewares cfg.http.middlewares route.middlewares) ++ ext.as_str pq)

-- Nothing was sent, and the gateway answers itself: 404, 503 or 429.
abbrev pub Unsent : (ext : Crates) → Response ext → World ext → World ext → Type 0
Unsent ext r w w' = (w'.sent ≡ w.sent) × ((r.status ≡ 404) ⊎ ((r.status ≡ 503) ⊎ (r.status ≡ 429)))
