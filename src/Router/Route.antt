-- ===== src/Router/Route.antt =====
-- `Router::get_http_route` and `get_tcp_route` (src/router.rs) against the routes that apply.
use portiq.Base.{
  ◌≤◌, ◌<◌, ◌≡◌, ◌↔◌, ◌⊎◌, inl, inr, refl, sym, ap, ◌∙◌, Bool, true, false, ◌&&◌, List, [], ◌∷◌,
  ◌++◌, Option, none, some, Str, ◌==◌, eq_to, eq_iff, ok, err, ok_or, find, any, All, All-imp, Any,
  here, there, Bool-cases, arith,
}
use portiq.Router.{
  not_found, HttpRoute, TcpRoute, Router, match_host, match_path, match_listener, matches, score,
  get_http_route, get_tcp_route,
}
use portiq.Router.Host.{HostMatches, match_host_iff}
use portiq.Router.Path.{PathMatches, match_path_iff}
use portiq.Router.Best.{max_by_key-keep}

abbrev pub Listens : Str → List Str → Type 0
Listens listener = Any (λ rl. rl ≡ listener)

abbrev pub HostsMatch : Str → Option (List Str) → Type 0
HostsMatch host none = Unit
HostsMatch host (some hosts) = Any (HostMatches host) hosts

abbrev pub PathsMatch : Str → Option Str → Type 0
PathsMatch path none = Unit
PathsMatch path (some rp) = PathMatches path rp

-- The route is attached to the listener, and what it says of hosts and path, if anything, fits.
pub record Applies (host path listener : Str) (route : HttpRoute) : Type 0 where
  pub listens : Listens listener route.listeners
  pub hosts : HostsMatch host route.hosts
  pub paths : PathsMatch path route.path

any_sound :
    (listener : Str) (ls : List Str) → any (λ rl. rl == listener) ls ≡ true → Listens listener ls
any_sound listener [] h = cc
any_sound listener (l ∷ ls) h = elim (Bool-cases (l == listener)) [
  | inl hit ↦ here (eq_to l listener hit)
  | inr miss ↦ there (any_sound listener ls (rw miss at h))
]

any_complete :
    (listener : Str) {ls : List Str} → Listens listener ls → any (λ rl. rl == listener) ls ≡ true
any_complete listener (here {x = l} {xs = ls} e) = rw ((eq_iff l listener).1 e)
any_complete listener (there {x = l} {xs = ls} m) = ground (arith, any_complete listener m)

hosts_test : Str → Option (List Str) → Bool
hosts_test host none = true
hosts_test host (some hosts) = match_host host hosts

paths_test : Str → Option Str → Bool
paths_test path none = true
paths_test path (some rp) = match_path path rp

hosts_test_iff :
    (host : Str) (o : Option (List Str)) → (hosts_test host o ≡ true) ↔ HostsMatch host o
unfolding hosts_test
hosts_test_iff host none = (λ _. tt, λ _. refl)
hosts_test_iff host (some hosts) = match_host_iff host hosts

paths_test_iff : (path : Str) (o : Option Str) → (paths_test path o ≡ true) ↔ PathsMatch path o
unfolding paths_test
paths_test_iff path none = (λ _. tt, λ _. refl)
paths_test_iff path (some rp) = match_path_iff path rp

matches_lem :
    (host path listener : Str) (route : HttpRoute)
    → matches host path listener route ≡ (
        any (λ rl. rl == listener) route.listeners
        && hosts_test host route.hosts
        && paths_test path route.path)
unfolding matches match_listener hosts_test paths_test
matches_lem host path listener route = ground arith

-- The filter keeps exactly the routes that apply.
pub matches_iff :
    (host path listener : Str) (route : HttpRoute)
    → (matches host path listener route ≡ true) ↔ Applies host path listener route
matches_iff host path listener route = (
  λ h.
      let passed = sym (matches_lem host path listener route) ∙ h in
      record {
        listens = any_sound listener route.listeners (ground (arith, passed));
        hosts = (hosts_test_iff host route.hosts).0 (ground (arith, passed));
        paths = (paths_test_iff path route.path).0 (ground (arith, passed));
      },
  λ a. rw (
    matches_lem host path listener route,
    any_complete listener a.listens,
    (hosts_test_iff host route.hosts).1 a.hosts,
    (paths_test_iff path route.path).1 a.paths,
  ),
)

rejected :
    (host path listener : Str) (r : HttpRoute)
    → matches host path listener r ≡ false
    → ¬ Applies host path listener r
rejected host path listener r m a = ground (arith, (matches_iff host path listener r).1 a)

-- `route` stands in the table, applies, scores no less than any route that applies, and more than
-- any such route after it.
pub record IsBest (host path listener : Str) (routes : List HttpRoute) (route : HttpRoute)
    : Type 0 where
  pub before : List HttpRoute
  pub after : List HttpRoute
  pub split : routes ≡ before ++ route ∷ after
  pub applies : Applies host path listener route
  pub not_beaten : All (λ r. Applies host path listener r → score r ≤ score route) before
  pub beats : All (λ r. Applies host path listener r → score r < score route) after

-- The lookup answers with the best route of the table, or with `NotFound` if none applies.
pub get_http_route-IsBest :
    (router : Router) (host path listener : Str)
    → ((get_http_route router host path listener ≡ err not_found)
        × All (λ r. ¬ Applies host path listener r) router.http)
      ⊎ ((route : HttpRoute) × (get_http_route router host path listener ≡ ok route)
          × IsBest host path listener router.http route)
unfolding get_http_route
get_http_route-IsBest router host path listener =
    let fits : HttpRoute → Bool = matches host path listener in
    elim (max_by_key-keep score fits router.http) [
      | inl (e, all) ↦ inl (
        rw e,
        All-imp (λ r. fits r ≡ false) (λ r. ¬ Applies host path listener r)
            (rejected host path listener) router.http all,
      )
      | inr (route, e, best) ↦ inr (
        route,
        rw e,
        record {
          before = best.before;
          after = best.after;
          split = best.split;
          applies = (matches_iff host path listener route).0 best.holds;
          not_beaten =
              All-imp (λ r. fits r ≡ true → score r ≤ score route)
                (λ r. Applies host path listener r → score r ≤ score route)
                (λ r h a. h ((matches_iff host path listener r).1 a)) best.before best.not_beaten;
          beats =
              All-imp (λ r. fits r ≡ true → score r < score route)
                (λ r. Applies host path listener r → score r < score route)
                (λ r h a. h ((matches_iff host path listener r).1 a)) best.after best.beats;
        },
      )
    ]

-- `route` is the first of the table that is attached to the listener.
pub record IsFirst (listener : Str) (routes : List TcpRoute) (route : TcpRoute) : Type 0 where
  pub before : List TcpRoute
  pub after : List TcpRoute
  pub split : routes ≡ before ++ route ∷ after
  pub listens : Listens listener route.listeners
  pub earlier : All (λ r. ¬ Listens listener r.listeners) before

deaf :
    (listener : Str) (ls : List Str) → any (λ rl. rl == listener) ls ≡ false → ¬ Listens listener ls
deaf listener ls h m = ground (arith, any_complete listener m)

find-IsFirst :
    (listener : Str) (routes : List TcpRoute)
    → ((find (λ r. any (λ rl. rl == listener) r.listeners) routes ≡ none)
        × All (λ r. ¬ Listens listener r.listeners) routes)
      ⊎ ((route : TcpRoute) × (find (λ r. any (λ rl. rl == listener) r.listeners) routes
            ≡ some route)
          × IsFirst listener routes route)
find-IsFirst listener [] = inl (refl, tt)
find-IsFirst listener (r ∷ rs) = elim (Bool-cases (any (λ rl. rl == listener) r.listeners)) [
  | inl hit ↦ inr (
    r,
    rw (hit, find),
    record {
      before = [];
      after = rs;
      split = refl;
      listens = any_sound listener r.listeners hit;
      earlier = tt;
    },
  )
  | inr miss ↦ elim (find-IsFirst listener rs) [
    | inl (e, all) ↦ inl (rw (miss, find) e, (deaf listener r.listeners miss, all))
    | inr (route, e, first) ↦ inr (
      route,
      rw (miss, find) e,
      record {
        before = r ∷ first.before;
        after = first.after;
        split = ap (◌∷◌ r) first.split;
        listens = first.listens;
        earlier = (deaf listener r.listeners miss, first.earlier);
      },
    )
  ]
]

-- A TCP connection is given the first route of its listener, or `NotFound` if it has none.
pub get_tcp_route-IsFirst :
    (router : Router) (listener : Str)
    → ((get_tcp_route router listener ≡ err not_found)
        × All (λ r. ¬ Listens listener r.listeners) router.tcp)
      ⊎ ((route : TcpRoute) × (get_tcp_route router listener ≡ ok route)
          × IsFirst listener router.tcp route)
unfolding get_tcp_route
get_tcp_route-IsFirst router listener = elim (find-IsFirst listener router.tcp) [
  | inl (e, all) ↦ inl (ap (λ o. ok_or o not_found) e, all)
  | inr (route, e, first) ↦ inr (route, ap (λ o. ok_or o not_found) e, first)
]
