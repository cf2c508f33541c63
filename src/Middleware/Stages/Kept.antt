-- ===== src/Middleware/Stages/Kept.antt =====
-- A rule for what the steps of a request (src/middleware) leave of the state, as for whole chains.
use portiq.Base.{
  ℕ, ◌≡◌, inl, inr, subst, List, [], ◌∷◌, returned, unwrap, >>=-returned_inv, returned-state,
  Bool-cases,
}
use portiq.Config.Validate.{is_none}
use portiq.Middleware.Extern.{Crates}
use portiq.Middleware.{
  Request, World, HandlerFunc, Middleware, request_id, access_logger, add_prefix, rate_limiter,
  request_id_header, too_many_requests,
}
use portiq.Middleware.Keeps.{IsKept, IsLogKept, Keeps}
use portiq.Middleware.Stages.{
  Stage, entering, refused, leaving, Call, enter_request_id, enter_add_prefix, enter, step_from,
}

module _ (ext : Crates) (R : World ext → World ext → Type 0) (kept : IsKept ext R)
    (log_kept : IsLogKept ext R) (same : (w : World ext) → R w w) where
  enter-Kept :
      (m : Middleware ext) (rest : List (Middleware ext)) (req : Request ext)
      (loggers : List (Request ext × ℕ)) (w : World ext) {c : Call ext} {w' : World ext}
      → enter ext m rest req loggers w ≡ returned (c, w')
      → R w w'
  unfolding enter enter_request_id enter_add_prefix
  enter-Kept request_id rest req loggers w {w' = w'} h =
      let ((req', w₁), h', e) = >>=-returned_inv (enter_request_id ext req w) _ h in
      let drawn : R w w₁ = elim (Bool-cases (is_none (ext.get req.headers request_id_header))) [
        | inl absent ↦
            let (_, made, _) =
              >>=-returned_inv (unwrap (ext.from_str (ext.new_v4 w.ids))) _ (rw absent at e) in
            subst (R w) (returned-state made).1 (kept.draws w)
        | inr present ↦ subst (R w) (returned-state (rw present at e)).1 (kept.draws w)
      ] in
      subst (R w) (returned-state h').1 drawn
  enter-Kept access_logger rest req loggers w h =
      subst (R w) (returned-state h).1 (log_kept.reads w)
  enter-Kept (add_prefix prefix) rest req loggers w h =
      let ((req', w₁), h', e) = >>=-returned_inv (enter_add_prefix ext prefix req w) _ h in
      let (_, e₁, _) = >>=-returned_inv (unwrap (ext.parse_path_and_query _)) _ e in
      let (_, e₂, _) = >>=-returned_inv (unwrap (ext.with_path_and_query req.uri _)) _ e₁ in
      subst (R w) (returned-state h').1 (subst (R w) (returned-state e₂).1 (same w))
  enter-Kept (rate_limiter limiter) rest req loggers w h =
      subst (R w) (returned-state h).1 (kept.counts w limiter _ _ _)

  pub step_from-Kept :
      (handler : HandlerFunc ext) (stage : Stage ext) (loggers : List (Request ext × ℕ))
      (w : World ext) {c : Call ext} {w' : World ext}
      → Keeps ext R handler
      → step_from ext handler stage loggers w ≡ returned (c, w')
      → R w w'
  unfolding step_from
  step_from-Kept handler (entering [] req) loggers w keeps h =
      let ((r, w₁), h', e) = >>=-returned_inv (handler req w) _ h in
      subst (R w) (returned-state h').1 (keeps req w r w₁ e)
  step_from-Kept handler (entering (current ∷ rest) req) loggers w keeps h =
      enter-Kept current rest req loggers w h
  step_from-Kept handler (refused key) loggers w keeps h =
      let (_, h', _) = >>=-returned_inv (too_many_requests ext _) _ h in
      subst (R w) (returned-state h').1 (same w)
  step_from-Kept handler (leaving response) [] w keeps h = subst (R w) (returned-state h).1 (same w)
  step_from-Kept handler (leaving response) ((req, start) ∷ loggers) w keeps h =
      subst (R w) (returned-state h).1 (log_kept.logs w _)
