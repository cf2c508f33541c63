-- ===== src/Server.antt =====
-- The HTTP server: `handle_client` and `send_upstream` of src/server/http.rs, with the helpers of
-- src/utils.rs. The connection, its TLS and HTTP itself are hyper's; sending is reqwest's (`Crates`).
pub mod Upstreams
pub mod Handled
pub mod Looked
pub mod Served
pub mod Total
pub mod Chained
pub mod Answered
pub mod Prefixed
pub mod Order
pub mod Logged
pub mod Accept
pub mod Listening
pub mod Tcp
pub mod Tls
pub mod Added
pub mod Chosen
pub mod Proxied
pub mod PlainTls
pub mod Sample
mod Tests
mod PrefixTests
use portiq.Base.{
  ℕ, Bool, true, false, List, [], ◌∷◌, ◌++◌, Option, none, some, Str, text, ◌==◌, Map, get, Exec,
  returned, panicked, ◌>>=◌, unwrap, ok, err, ◌||◌, if◌then◌else◌,
}
use portiq.Config.{IpAddr, MiddlewareConfig}
use portiq.Config.Validate.{is_none}
use portiq.Router.{
  RouterError, not_found, no_upstream, status_code, get_http_route, get_http_upstream,
}
use portiq.Runtime.{GatewayRuntime}
use portiq.Middleware.Extern.{Crates, Outgoing}
use portiq.Middleware.{Request, Response, World, HandlerFunc, Middleware, show_ip, header_text, run}
use portiq.Middleware.Registry.{init, create_chain}

-- The lines of the page, each but the first indented by eight blanks.
abbrev pub page_lines : List Str
page_lines =
    text "<html>"
    ∷ text "<head>"
    ∷ text "<title>502 Bad Gateway</title>"
    ∷ text "</head>"
    ∷ text "<body>"
    ∷ text "<center><h1>502 Bad Gateway</h1></center>"
    ∷ text "<hr><center>portiq</center>"
    ∷ text "</body>"
    ∷ text "</html>"
    ∷ []

unfoldable pub indented : List Str → Str
indented [] = []
indented (line ∷ lines) = b'\n' ∷ text "        " ++ line ++ indented lines

unfoldable pub html_res : Str
unfolding indented
html_res = text "<!DOCTYPE html>" ++ indented page_lines

-- `filter_map` of the route's names by the configuration.
unfoldable pub route_middlewares : Map MiddlewareConfig → List Str → List MiddlewareConfig
route_middlewares configs [] = []
route_middlewares configs (name ∷ names) =
    let others = route_middlewares configs names in
    elim (get name configs) [ none ↦ others | some config ↦ config ∷ others ]

module _ (ext : Crates) where
  unfoldable pub response_with_status : ℕ → Exec (Response ext)
  response_with_status status_code = do
    server ← unwrap (ext.from_str (text "portiq"))
    returned (record { status = status_code; headers = (text "Server", server) ∷ []; body = [] })

  unfoldable pub bad_gateway_response : Exec (Response ext)
  bad_gateway_response = do
    server ← unwrap (ext.from_str (text "portiq"))
    content_type ← unwrap (ext.from_str (text "text/html; charset=utf-8"))
    returned (record {
      status = 502;
      headers = (text "Server", server) ∷ (text "Content-Type", content_type) ∷ [];
      body = html_res;
    })

  -- Of a header that the request has already nothing is added.
  abbrev pub if_missing : Request ext → Str → Str → List (Str × Str)
  if_missing req name value = if is_none (ext.get req.headers name) then (name, value) ∷ [] else []

  unfoldable pub forwarded_for : IpAddr → Request ext → Exec Str
  forwarded_for client_ip req = elim (ext.get req.headers (text "x-forwarded-for")) [
    | none ↦ returned (show_ip ext client_ip)
    | some val ↦ do
      before ← unwrap (ext.to_str val)
      returned (before ++ text "," ++ show_ip ext client_ip)
  ]

  unfoldable pub set_proxy_headers : IpAddr → Str → Str → Request ext → Exec (List (Str × Str))
  set_proxy_headers client_ip host proto req = do
    addresses ← forwarded_for client_ip req
    returned (
        (text "x-forwarded-for", addresses) ∷ if_missing req (text "x-forwarded-host") host
        ++ if_missing req (text "x-forwarded-proto") proto)

  unfoldable pub request_host : Request ext → Exec Str
  request_host req = elim (ext.get req.headers (text "host")) [
    | some val ↦ unwrap (ext.to_str val)
    | none ↦ unwrap (ext.authority req.uri)
  ]

  unfoldable pub request_proto : Request ext → Str
  request_proto req = elim (ext.scheme req.uri) [
    | none ↦ text "http"
    | some scheme ↦ if scheme == text "https" then text "https" else text "http"
  ]

  -- `matches!(req.method(), &Method::POST | &Method::PUT | &Method::PATCH)`.
  unfoldable pub has_body : Str → Bool
  has_body method = method == text "POST" || method == text "PUT" || method == text "PATCH"

  unfoldable pub outgoing_body : Request ext → Exec (Option Str)
  outgoing_body req =
      if has_body req.method
      then (do collected ← unwrap req.body; returned (some collected))
      else returned none

  unfoldable pub response_headers :
      List (Str × ext.HeaderValue) → Exec (List (Str × ext.HeaderValue))
  response_headers [] = returned []
  response_headers ((key, value) ∷ headers) =
      let others = response_headers headers in
      if key == text "server"
      then (do
        server ← unwrap (ext.from_str (text "portiq"))
        rest ← others
        returned ((text "Server", server) ∷ rest))
      else (do rest ← others; returned ((key, value) ∷ rest))

  -- What is sent for a request.
  unfoldable pub outgoing : Str → IpAddr → Request ext → Exec Outgoing
  outgoing upstream_url client_ip req = do
    path_and_query ← unwrap (ext.path_and_query req.uri)
    host ← request_host req
    headers ← set_proxy_headers client_ip host (request_proto req) req
    body ← outgoing_body req
    returned (record {
      method = req.method;
      url = upstream_url ++ ext.as_str path_and_query;
      headers = headers;
      body = body;
    })

  -- The answer to what the upstream has answered, if it has.
  unfoldable pub respond :
      Option (ℕ × List (Str × ext.HeaderValue) × Option Str) → Exec (Response ext)
  respond none = bad_gateway_response
  respond (some (status, headers, body)) = do
    copied ← response_headers headers
    resp_bytes ← unwrap body
    returned (record { status = status; headers = copied; body = resp_bytes })

  unfoldable pub send_upstream : Str → IpAddr → HandlerFunc ext
  send_upstream upstream_url client_ip req w = do
    request ← outgoing upstream_url client_ip req
    response ← respond (ext.send w.sent request)
    returned (response, record w { sent = w.sent ++ request ∷ [] })

  -- The Host header, or for HTTP/2 the URI.
  unfoldable pub original_host : Request ext → Exec Str
  original_host req = elim (header_text ext req (text "host")) [
    | some host ↦ returned host
    | none ↦ unwrap (ext.host req.uri)
  ]

  -- The state comes back with the cursor that the lookup has moved.
  unfoldable pub handle_client :
      IpAddr
      → Str
      → GatewayRuntime
      → Request ext
      → World ext
      → Exec (Response ext × GatewayRuntime × World ext)
  handle_client ip_addr listener gateway_state req w = do
    host ← original_host req
    elim (get_http_route gateway_state.router host (ext.path req.uri) listener) [
      | ok route ↦ do
        (found, router) ← get_http_upstream gateway_state.router route.service
        let state' = record gateway_state { router = router }
        elim found [
          | ok upstream ↦ do
            let configs = gateway_state.applied_config.http.middlewares
            middlewares ← create_chain ext init (route_middlewares configs route.middlewares)
            let handler = send_upstream upstream.target ip_addr
            (response, w') ← run ext handler middlewares req w
            returned (response, state', w')
          | err _ ↦ do response ← response_with_status 503; returned (response, state', w)
        ]
      | err not_found ↦ do
        response ← response_with_status (status_code not_found)
        returned (response, gateway_state, w)
      | err no_upstream ↦ panicked
    ]
