-- ===== src/Server/Chained.antt =====
-- The chain of a route (src/middleware) does not panic on a request that can be read.
use portiq.Base.{
  ◌≡◌, ◌≢◌, ◌==◌, eq_iff, ◌-◌, inl, inr, refl, ap, ◌∙◌, suc, List, [], ◌∷◌, ◌++◌, some, Str, text,
  returned, Bool-cases, All,
}
use portiq.RateLimiter.{Limiter, allow}
use portiq.Middleware.Extern.{Crates, IsHyper, to_ascii_lowercase}
use portiq.Middleware.{
  Request, Response, World, HandlerFunc, Middleware, request_id, access_logger, add_prefix,
  rate_limiter, request_id_header, call, call_access_logger, call_add_prefix, call_rate_limiter,
  call_request_id, limit_key, query_params, run, entry_of,
}
use portiq.Middleware.Keys.{Identified, call_request_id-Identified, call_rate_limiter-refused}
use portiq.Server.Total.{IsReadable}

-- The text has more before its fragment.
abbrev pub HasPath : Str → Type 0
HasPath [] = ⊥
HasPath (b ∷ s) = b ≢ b'#'

-- The documented behaviour of URIs: the path of one that has a path can be replaced, and nothing of
-- its authority changes.
pub record IsUri (ext : Crates) : Type 0 where
  pub replaces :
      (uri : ext.Uri) (old new : ext.PathAndQuery) (s : Str)
      → ext.path_and_query uri ≡ some old
      → HasPath s
      → ext.parse_path_and_query s ≡ some new
      → (uri' : ext.Uri) × (ext.with_path_and_query uri new ≡ some uri')
        × (ext.path_and_query uri' ≡ some new)
        × (ext.authority uri' ≡ ext.authority uri)

host_apart : to_ascii_lowercase (text "host") ≢ request_id_header
unfolding ◌==◌
host_apart e = cc ((eq_iff (text "host") request_id_header).1 e)

forwarded_apart : to_ascii_lowercase (text "x-forwarded-for") ≢ request_id_header
unfolding ◌==◌
forwarded_apart e = cc ((eq_iff (text "x-forwarded-for") request_id_header).1 e)

module _ (ext : Crates) where
  -- The handler returns for every request that can be read.
  abbrev pub Serves : HandlerFunc ext → Type 0
  Serves next =
      (req : Request ext) (w : World ext)
      → IsReadable ext req
      → (r : Response ext) × (w' : World ext) × (next req w ≡ returned (r, w'))

  -- With this prefix the path and query of any URI that has them are still such, and not a fragment.
  abbrev pub Prefixes : Str → Type 0
  Prefixes prefix =
      (uri : ext.Uri) (old : ext.PathAndQuery)
      → ext.path_and_query uri ≡ some old
      → (pq : ext.PathAndQuery) × (ext.parse_path_and_query
            ((prefix ++ ext.path uri) ++ query_params ext (ext.query uri))
          ≡ some pq)
        × HasPath ((prefix ++ ext.path uri) ++ query_params ext (ext.query uri))

  abbrev pub Works : Middleware ext → Type 0
  Works request_id = Unit
  Works access_logger = Unit
  Works (add_prefix prefix) = Prefixes prefix
  Works (rate_limiter limiter) = Unit

  pub Identified-IsReadable :
      (laws : IsHyper ext) (req req' : Request ext)
      → Identified ext laws req req'
      → IsReadable ext req
      → IsReadable ext req'
  Identified-IsReadable laws req req' i h = record {
    target = (h.target.0, ap ext.path_and_query i.uri ∙ h.target.1);
    host = elim h.host [
      | inl (v, s, e, e') ↦ inl (v, s, i.others (text "host") host_apart ∙ e, e')
      | inr (a, e, e') ↦ inr (a, i.others (text "host") host_apart ∙ e, ap ext.authority i.uri ∙ e')
    ];
    addresses = elim h.addresses [
      | inl e ↦ inl (i.others (text "x-forwarded-for") forwarded_apart ∙ e)
      | inr (v, s, e, e') ↦ inr (v, s, i.others (text "x-forwarded-for") forwarded_apart ∙ e, e')
    ];
    body = (h.body.0, i.same.body ∙ h.body.1);
  }

  -- A prefix that makes paths can be put before the path of a request that can be read.
  pub prefixed-IsReadable :
      (uris : IsUri ext) (prefix : Str)
      → Prefixes prefix
      → (req : Request ext) → IsReadable ext req
      → (pq : ext.PathAndQuery) × (uri' : ext.Uri) × (ext.parse_path_and_query
            ((prefix ++ ext.path req.uri) ++ query_params ext (ext.query req.uri))
          ≡ some pq)
        × (ext.with_path_and_query req.uri pq ≡ some uri')
        × IsReadable ext (record req { uri = uri' })
  prefixed-IsReadable uris prefix prefixes req h =
      let (pq, e, has_path) = prefixes req.uri h.target.0 h.target.1 in
      let (uri', e', placed, same) = uris.replaces req.uri h.target.0 pq _ h.target.1 has_path e in
      (
        pq,
        uri',
        e,
        e',
        record {
          target = (pq, placed);
          host = elim h.host [
            | inl found ↦ inl found
            | inr (a, missing, there) ↦ inr (a, missing, same ∙ there)
          ];
          addresses = h.addresses;
          body = h.body;
        },
      )

  module _ (laws : IsHyper ext) (uris : IsUri ext) (next : HandlerFunc ext)
      (serves : Serves next) where
    call_request_id-Serves : Serves (call_request_id ext next)
    call_request_id-Serves req w h =
        let (req', i, e) = call_request_id-Identified ext laws next req w in
        let (r, w', e') = serves req' _ (Identified-IsReadable laws req req' i h) in (r, w', e ∙ e')

    call_access_logger-Serves : Serves (call_access_logger ext next)
    unfolding call_access_logger
    call_access_logger-Serves req w h =
        let (r, w', e) = serves req (record w { instants = suc w.instants }) h in
        (
          r,
          record w' {
            access_log =
                w'.access_log
                ++ entry_of ext req r.status (ext.instant w'.instants - ext.instant w.instants)
                  ∷ [];
            instants = suc w'.instants;
          },
          rw e refl,
        )

    call_add_prefix-Serves :
        (prefix : Str) → Prefixes prefix → Serves (call_add_prefix ext prefix next)
    unfolding call_add_prefix
    call_add_prefix-Serves prefix prefixes req w h =
        let (pq, uri', e, e', readable) = prefixed-IsReadable uris prefix prefixes req h in
        let (r, w', e₃) = serves (record req { uri = uri' }) w readable in (r, w', rw (e, e') e₃)

    call_rate_limiter-Serves :
        (limiter : Limiter ext.float) → Serves (call_rate_limiter ext limiter next)
    unfolding call_rate_limiter
    call_rate_limiter-Serves limiter req w h =
        let key = limit_key ext limiter.source req in
        let called =
          allow ext.float limiter w.store key (ext.instant w.instants)
            (ext.instant (suc w.instants)) in
        elim (Bool-cases called.0) [
          | inr refuses ↦
              let (server, bucket, stored, e) =
                call_rate_limiter-refused ext laws limiter next req w refuses in
              (_, _, e)
          | inl passes ↦
              let (r, w', e) =
                serves req (record w { store = called.1; instants = suc (suc w.instants) }) h in
              (r, w', rw passes e)
        ]

    call-Serves : (m : Middleware ext) → Works m → Serves (call ext m next)
    unfolding call
    call-Serves request_id works = call_request_id-Serves
    call-Serves access_logger works = call_access_logger-Serves
    call-Serves (add_prefix prefix) works = call_add_prefix-Serves prefix works
    call-Serves (rate_limiter limiter) works = call_rate_limiter-Serves limiter

  -- A chain of middlewares that work returns if its handler does.
  pub run-Serves :
      (laws : IsHyper ext) (uris : IsUri ext) (handler : HandlerFunc ext)
      → Serves handler
      → (chain : List (Middleware ext)) → All Works chain
      → Serves (run ext handler chain)
  unfolding run
  run-Serves laws uris handler serves [] works = serves
  run-Serves laws uris handler serves (m ∷ chain) works =
      call-Serves laws uris (run ext handler chain)
        (run-Serves laws uris handler serves chain works.1) m works.0
