-- ===== src/Server/Upstreams.antt =====
-- `send_upstream` (src/server/http.rs): what is sent for a request, and what is answered.
use portiq.Base.{
  ◌≡◌, ◌⊎◌, inl, inr, sym, ap, subst, ◌∙◌, List, [], ◌∷◌, ◌++◌, none, some, Str, text, returned,
  unwrap, unwrap-returned_inv, >>=-returned_inv, returned-state, returned-injective, Option-cases,
}
use portiq.Config.{IpAddr}
use portiq.Middleware.Extern.{Crates, Outgoing}
use portiq.Middleware.{Request, Response, World, show_ip}
use portiq.Middleware.Logged.{IsSilent}
use portiq.Server.{
  bad_gateway_response, forwarded_for, set_proxy_headers, request_host, request_proto,
  outgoing_body, response_headers, outgoing, respond, send_upstream, if_missing,
}

module _ (ext : Crates) where
  -- The addresses that the client has forwarded, if any, and a comma, and then its own.
  pub IsAppended : IpAddr → Request ext → Str → Type 0
  IsAppended client_ip req addresses =
      ((ext.get req.headers (text "x-forwarded-for") ≡ none) × (addresses ≡ show_ip ext client_ip))
      ⊎ ((v : ext.HeaderValue) × (before : Str) × (ext.get req.headers (text "x-forwarded-for")
            ≡ some v)
          × (ext.to_str v ≡ some before)
          × (addresses ≡ before ++ text "," ++ show_ip ext client_ip))

  -- One request was sent, to the upstream under the path and query of the client's request, with its
  -- method and body, with the client's address at the end of the forwarded ones, and with the host and
  -- the scheme where the client has not named them.
  pub record IsForwarded (url : Str) (client_ip : IpAddr) (req : Request ext) (request : Outgoing)
      : Type 0 where
    pub method : request.method ≡ req.method
    pub target :
        (pq : ext.PathAndQuery) × (ext.path_and_query req.uri ≡ some pq)
        × (request.url ≡ url ++ ext.as_str pq)
    pub forwarded :
        (addresses : Str) × (host : Str) × IsAppended client_ip req addresses
        × (request_host ext req ≡ returned host)
        × (request.headers
            ≡ (text "x-forwarded-for", addresses)
                ∷ if_missing ext req (text "x-forwarded-host") host
              ++ if_missing ext req (text "x-forwarded-proto") (request_proto ext req))
    pub body : outgoing_body ext req ≡ returned request.body

  -- The upstream's status, or 502 where it has not answered.
  pub IsAnswered : List Outgoing → Outgoing → Response ext → Type 0
  IsAnswered before request r =
      ((ext.send before request ≡ none) × (r.status ≡ 502))
      ⊎ ((headers : List (Str × ext.HeaderValue)) × (body : Str) × (ext.send before request
            ≡ some (r.status, headers, some body))
          × (r.body ≡ body))

  forwarded_for-IsAppended :
      (client_ip : IpAddr) (req : Request ext) {addresses : Str}
      → forwarded_for ext client_ip req ≡ returned addresses
      → IsAppended client_ip req addresses
  unfolding forwarded_for IsAppended
  forwarded_for-IsAppended client_ip req h =
      elim (Option-cases (ext.get req.headers (text "x-forwarded-for"))) [
        | inl e ↦ inl (e, sym (returned-injective (rw (e, forwarded_for) at h)))
        | inr (v, e) ↦
            let (before, h', read) =
              >>=-returned_inv (unwrap (ext.to_str v)) _ (rw (e, forwarded_for) at h) in
            inr (v, before, e, unwrap-returned_inv (ext.to_str v) read, sym (returned-injective h'))
      ]

  set_proxy_headers-IsAppended :
      (client_ip : IpAddr) (host proto : Str) (req : Request ext) {headers : List (Str × Str)}
      → set_proxy_headers ext client_ip host proto req ≡ returned headers
      → (addresses : Str) × IsAppended client_ip req addresses
        × (headers
            ≡ (text "x-forwarded-for", addresses)
                ∷ if_missing ext req (text "x-forwarded-host") host
              ++ if_missing ext req (text "x-forwarded-proto") proto)
  unfolding set_proxy_headers
  set_proxy_headers-IsAppended client_ip host proto req h =
      let (addresses, h', f) = >>=-returned_inv (forwarded_for ext client_ip req) _ h in
      (addresses, forwarded_for-IsAppended client_ip req f, sym (returned-injective h'))

  pub outgoing-IsForwarded :
      (url : Str) (client_ip : IpAddr) (req : Request ext) {request : Outgoing}
      → outgoing ext url client_ip req ≡ returned request
      → IsForwarded url client_ip req request
  unfolding outgoing
  outgoing-IsForwarded url client_ip req h =
      let (pq, h₁, found) = >>=-returned_inv (unwrap (ext.path_and_query req.uri)) _ h in
      let (host, h₂, hosted) = >>=-returned_inv (request_host ext req) _ h₁ in
      let (headers, h₃, set) =
        >>=-returned_inv (set_proxy_headers ext client_ip host (request_proto ext req) req) _ h₂ in
      let (body, h₅, carried) = >>=-returned_inv (outgoing_body ext req) _ h₃ in
      let (addresses, appended, ends) = set_proxy_headers-IsAppended client_ip host _ req set in
      let made = returned-injective h₅ in
      record {
        method = sym (ap (λ r. r.method) made);
        target = (
          pq,
          unwrap-returned_inv (ext.path_and_query req.uri) found,
          sym (ap (λ r. r.url) made),
        );
        forwarded = (addresses, host, appended, hosted, sym (ap (λ r. r.headers) made) ∙ ends);
        body = carried ∙ ap (λ r. returned r.body) made;
      }

  pub respond-IsAnswered :
      (w : World ext) (request : Outgoing) {r : Response ext}
      → respond ext (ext.send w.sent request) ≡ returned r
      → IsAnswered w.sent request r
  unfolding respond bad_gateway_response IsAnswered
  respond-IsAnswered w request {r} h = elim (Option-cases (ext.send w.sent request)) [
    | inl e ↦
        let (_, h₁, _) = >>=-returned_inv (unwrap (ext.from_str (text "portiq"))) _ (rw e at h) in
        let (_, h₂, _) =
          >>=-returned_inv (unwrap (ext.from_str (text "text/html; charset=utf-8"))) _ h₁ in
        inl (e, sym (ap (λ r. r.status) (returned-injective h₂)))
    | inr ((status, headers, body), e) ↦
        let (_, h₁, _) = >>=-returned_inv (response_headers ext headers) _ (rw e at h) in
        let (bytes, h₂, read) = >>=-returned_inv (unwrap body) _ h₁ in
        let made = returned-injective h₂ in
        inr (
          headers,
          bytes,
          e
              ∙ ap (λ s. some (s, headers, body)) (ap (λ r. r.status) made)
              ∙ ap (λ b. some (r.status, headers, b)) (unwrap-returned_inv body read),
          sym (ap (λ r. r.body) made),
        )
  ]

  -- If it returns, one request was sent, formed from the client's, and the answer is the upstream's,
  -- or 502 where there is none.
  pub send_upstream-IsAnswered :
      (url : Str) (client_ip : IpAddr) (req : Request ext) (w : World ext) {r : Response ext}
      {w' : World ext}
      → send_upstream ext url client_ip req w ≡ returned (r, w')
      → (request : Outgoing) × (w'.sent ≡ w.sent ++ request ∷ [])
        × IsForwarded url client_ip req request
        × IsAnswered w.sent request r
  unfolding send_upstream
  send_upstream-IsAnswered url client_ip req w h =
      let (request, h₁, built) = >>=-returned_inv (outgoing ext url client_ip req) _ h in
      let (r₁, h₂, answered) = >>=-returned_inv (respond ext (ext.send w.sent request)) _ h₁ in
      let (e, e') = returned-state h₂ in
      (
        request,
        sym (ap (λ w. w.sent) e'),
        outgoing-IsForwarded url client_ip req built,
        subst (IsAnswered w.sent request) e (respond-IsAnswered w request answered),
      )

  -- Sending writes nothing to the access log.
  pub send_upstream-IsSilent :
      (url : Str) (client_ip : IpAddr) → IsSilent ext (send_upstream ext url client_ip)
  unfolding send_upstream
  send_upstream-IsSilent url client_ip req w r w' h =
      let (request, h₁, _) = >>=-returned_inv (outgoing ext url client_ip req) _ h in
      let (r₁, h₂, _) = >>=-returned_inv (respond ext (ext.send w.sent request)) _ h₁ in
      ap (λ w. w.access_log) (sym (returned-state h₂).1)
