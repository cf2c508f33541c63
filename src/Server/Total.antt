-- ===== src/Server/Total.antt =====
-- `send_upstream` (src/server/http.rs) does not panic on a request that can be read.
use portiq.Base.{
  ◌≡◌, ◌⊎◌, inl, inr, refl, List, [], ◌∷◌, ◌++◌, Option, none, some, Str, text, ◌==◌, returned,
  Option-cases, Bool-cases, arith,
}
use portiq.Config.{IpAddr}
use portiq.Middleware.Extern.{Crates, Outgoing, IsHyper}
use portiq.Middleware.{Request, Response, World, show_ip}
use portiq.Server.{
  html_res, if_missing, bad_gateway_response, forwarded_for, set_proxy_headers, request_host,
  request_proto, outgoing_body, has_body, response_headers, outgoing, respond, send_upstream,
}
use portiq.Server.Upstreams.{IsForwarded, IsAnswered, outgoing-IsForwarded, respond-IsAnswered}

module _ (ext : Crates) where
  -- Of the request: it has a path, a host that is text, forwarded addresses that are text, if any, and
  -- a body that arrives.
  pub record IsReadable (req : Request ext) : Type 0 where
    pub target : (pq : ext.PathAndQuery) × (ext.path_and_query req.uri ≡ some pq)
    pub host :
        ((v : ext.HeaderValue) × (s : Str) × (ext.get req.headers (text "host") ≡ some v)
          × (ext.to_str v ≡ some s))
        ⊎ ((a : Str) × (ext.get req.headers (text "host") ≡ none)
            × (ext.authority req.uri ≡ some a))
    pub addresses :
        (ext.get req.headers (text "x-forwarded-for") ≡ none)
        ⊎ ((v : ext.HeaderValue) × (s : Str) × (ext.get req.headers (text "x-forwarded-for")
              ≡ some v)
            × (ext.to_str v ≡ some s))
    pub body : (b : Str) × (req.body ≡ some b)

  module _ (laws : IsHyper ext) where
    portiq_value : (v : ext.HeaderValue) × (ext.from_str (text "portiq") ≡ some v)
    portiq_value = laws.from_str-visible (text "portiq") (omega arith)

    html_value : (v : ext.HeaderValue) × (ext.from_str (text "text/html; charset=utf-8") ≡ some v)
    html_value = laws.from_str-visible (text "text/html; charset=utf-8") (omega arith)

    response_headers_total :
        (headers : List (Str × ext.HeaderValue))
        → (copied : List (Str × ext.HeaderValue)) × (response_headers ext headers ≡ returned copied)
    unfolding response_headers
    response_headers_total [] = ([], refl)
    response_headers_total ((key, value) ∷ headers) =
        let (rest, e) = response_headers_total headers in
        let (server, e') = portiq_value in
        elim (Bool-cases (key == text "server")) [
          | inl is ↦ ((text "Server", server) ∷ rest, rw (is, e, e') refl)
          | inr not ↦ ((key, value) ∷ rest, rw (not, e) refl)
        ]

    respond_total :
        (before : List Outgoing) (request : Outgoing)
        → ((status : _) (headers : _) (body : Option Str)
            → ext.send before request ≡ some (status, headers, body)
            → (b : Str) × (body ≡ some b))
        → (r : Response ext) × (respond ext (ext.send before request) ≡ returned r)
    unfolding respond bad_gateway_response
    respond_total before request arrives =
        let (server, e) = portiq_value in
        let (html, e') = html_value in
        elim (Option-cases (ext.send before request)) [
          | inl silent ↦ (
            record {
              status = 502;
              headers = (text "Server", server) ∷ (text "Content-Type", html) ∷ [];
              body = html_res;
            },
            rw (silent, e, e') refl,
          )
          | inr ((status, headers, body), replied) ↦
              let (copied, c) = response_headers_total headers in
              let (b, read) = arrives status headers body replied in
              (record { status = status; headers = copied; body = b }, rw (replied, c, read) refl)
        ]

  request_host_total :
      (req : Request ext) → IsReadable req → (host : Str) × (request_host ext req ≡ returned host)
  unfolding request_host
  request_host_total req h = elim h.host [
    | inl (v, s, e, e') ↦ (s, rw (request_host, e, e') refl)
    | inr (a, e, e') ↦ (a, rw (request_host, e, e') refl)
  ]

  forwarded_for_total :
      (client_ip : IpAddr) (req : Request ext)
      → IsReadable req
      → (a : Str) × (forwarded_for ext client_ip req ≡ returned a)
  unfolding forwarded_for
  forwarded_for_total client_ip req h = elim h.addresses [
    | inl e ↦ (show_ip ext client_ip, rw (forwarded_for, e) refl)
    | inr (v, s, e, e') ↦ (s ++ text "," ++ show_ip ext client_ip, rw (forwarded_for, e, e') refl)
  ]

  outgoing_body_total :
      (req : Request ext) → IsReadable req → (b : Option Str) × (outgoing_body ext req ≡ returned b)
  unfolding outgoing_body
  outgoing_body_total req h = elim (Bool-cases (has_body ext req.method)) [
    | inl e ↦ (some h.body.0, rw (e, h.body.1) refl)
    | inr e ↦ (none, rw e refl)
  ]

  outgoing_total :
      (url : Str) (client_ip : IpAddr) (req : Request ext)
      → IsReadable req
      → (request : Outgoing) × (outgoing ext url client_ip req ≡ returned request)
  unfolding outgoing set_proxy_headers
  outgoing_total url client_ip req h =
      let (host, e) = request_host_total req h in
      let (a, e') = forwarded_for_total client_ip req h in
      let (b, e₃) = outgoing_body_total req h in
      (
        record {
          method = req.method;
          url = url ++ ext.as_str h.target.0;
          headers =
              (text "x-forwarded-for", a) ∷ if_missing ext req (text "x-forwarded-host") host
              ++ if_missing ext req (text "x-forwarded-proto") (request_proto ext req);
          body = b;
        },
        rw (h.target.1, e, e', e₃) refl,
      )

  pub send_upstream_total :
      (url : Str) (client_ip : IpAddr) (req : Request ext) (w : World ext)
      → IsHyper ext
      → IsReadable req
      → ((request : Outgoing) (status : _) (headers : _) (body : Option Str)
          → ext.send w.sent request ≡ some (status, headers, body)
          → (b : Str) × (body ≡ some b))
      → (r : Response ext) × (w' : World ext) × (request : Outgoing) × (send_upstream ext url
            client_ip req w
          ≡ returned (r, w'))
        × (w'.sent ≡ w.sent ++ request ∷ [])
        × IsForwarded ext url client_ip req request
        × IsAnswered ext w.sent request r
  unfolding send_upstream
  send_upstream_total url client_ip req w laws h arrives =
      let (request, e) = outgoing_total url client_ip req h in
      let (r, e') = respond_total laws w.sent request (arrives request) in
      let w' : World ext = record w { sent = w.sent ++ request ∷ [] } in
      let returns : send_upstream ext url client_ip req w ≡ returned (r, w') = rw (e, e') refl in
      (
        r,
        w',
        request,
        returns,
        refl,
        outgoing-IsForwarded ext url client_ip req e,
        respond-IsAnswered ext w request e',
      )
