-- ===== src/Router/Tests.antt =====
-- The router (src/router.rs) on the sample configuration, with the source's own tests.
use portiq.Base.{
  ◌≡◌, ◌↔◌, ◌⊎◌, refl, arith, true, false, List, [], ◌∷◌, Str, text, ◌==◌, strip_prefix,
  starts_with, ends_with, ok, err, All, Any,
}
use portiq.Router.{
  HttpRoute, http_route, match_host, match_path, match_listener, matches, score, max_from,
  max_by_key, get_http_route, not_found,
}
use portiq.Router.Host.{HostMatches, match_host_iff, match_host-no_boundary, match_host-other_end}
use portiq.Router.Path.{PathMatches, match_path_iff, match_path-no_boundary, slash}
use portiq.Router.Route.{Applies, IsBest, get_http_route-IsBest}
use portiq.Samples.{user_route, sample_router}

-- `test_wildcard_host_matches_user_service`.
wildcard_host :
    get_http_route sample_router (text "some.api.example.com") (text "/v1") (text "http-main")
    ≡ ok (http_route user_route)
unfolding get_http_route max_by_key matches match_listener ◌==◌ match_host strip_prefix match_path
    ends_with starts_with max_from score
wildcard_host = refl

unknown_listener :
    get_http_route sample_router (text "api.example.com") (text "/v1") (text "tcp-main")
    ≡ err not_found
unfolding get_http_route max_by_key matches match_listener ◌==◌ match_host strip_prefix match_path
    ends_with starts_with max_from score
unknown_listener = refl

abbrev wildcard_hosts : List Str
wildcard_hosts = text "*.api.example.com" ∷ []

match_host_iff_example :
    (match_host (text "some.api.example.com") wildcard_hosts ≡ true)
    ↔ Any (HostMatches (text "some.api.example.com")) wildcard_hosts
match_host_iff_example = match_host_iff (text "some.api.example.com") wildcard_hosts

no_dot_needed : match_host (text "evilapi.example.com") wildcard_hosts ≡ true
no_dot_needed = match_host-no_boundary (text "evil") (text "api.example.com") [] [] (λ e. cc)

port_not_matched :
    match_host (text "api.example.com:3000") (text "api.example.com" ∷ wildcard_hosts) ≡ false
port_not_matched =
    match_host-other_end (text "api.example.com:300") b'0' (text "api.example.com" ∷ wildcard_hosts)
      (
        (text "api.example.co", b'm', refl, omega arith, λ e. cc),
        ((text "*.api.example.co", b'm', refl, omega arith, λ e. cc), tt),
      )

match_path_iff_example :
    (match_path (text "/v1/api") (text "/v1/*") ≡ true)
    ↔ PathMatches (text "/v1/api") (text "/v1/*")
match_path_iff_example = match_path_iff (text "/v1/api") (text "/v1/*")

no_slash : ends_with (text "/v10/users") slash ≡ false
unfolding ends_with ◌==◌
no_slash = refl

no_slash_needed : match_path (text "/v10/users") (text "/v1/*") ≡ true
no_slash_needed = match_path-no_boundary (text "/v1") (text "0/users") no_slash

get_http_route-IsBest_example :
    ((get_http_route sample_router (text "api.example.com") (text "/v1/api") (text "http-main")
        ≡ err not_found)
      × All
          (λ r. ¬ Applies (text "api.example.com") (text "/v1/api") (text "http-main") r)
          sample_router.http)
    ⊎ ((route : HttpRoute) × (get_http_route sample_router
            (text "api.example.com")
            (text "/v1/api")
            (text "http-main")
          ≡ ok route)
        × IsBest
            (text "api.example.com")
            (text "/v1/api")
            (text "http-main")
            sample_router.http
            route)
get_http_route-IsBest_example =
    get_http_route-IsBest sample_router (text "api.example.com") (text "/v1/api") (text "http-main")
