-- ===== src/Service/Endpoint.antt =====
-- The registry of src/service.rs against the configured services.
use portiq.Base.{
  ◌≤◌, ◌≡◌, ◌≢◌, ◌↔◌, ◌⊎◌, inl, inr, refl, ap, subst, sym, List, [], ◌∷◌, Option, none, some, Str,
  ◌==◌, eq_to, ◌∙◌, some-injective, Map, get, insert, get-insert, returned, All, length, Bool-cases,
}
use portiq.Config.{Upstream}
use portiq.LoadBalancer.{u16_max}
use portiq.LoadBalancer.Shares.{Weighs, shares, IsValid, HasU32Weight, new-IsValid}
use portiq.LoadBalancer.Cycle.{select_total}
use portiq.Service.{Service, new_service, init_services, endpoint}

-- A service that balances over the configured upstreams.
abbrev pub Balances : List Upstream → Service → Type 0
Balances us svc = (svc.lb.upstreams ≡ us) × IsValid svc.lb

module _ {C : Type 0} (upstreams : C → List Upstream) where
  abbrev pub Implements : Option C → Option Service → Type 0
  Implements none none = Unit
  Implements none (some svc) = ⊥
  Implements (some c) none = ⊥
  Implements (some c) (some svc) = Balances (upstreams c) svc

  -- Under every name there is a service exactly if one is configured, and it balances over its
  -- upstreams.
  abbrev pub Serves : Map C → Map Service → Type 0
  Serves configured services = (name : Str) → Implements (get name configured) (get name services)

  Implements-cases :
      (a : Option C) (b : Option Service)
      → Implements a b
      → ((a ≡ none) × (b ≡ none))
        ⊎ ((c : C) × (svc : Service) × (a ≡ some c)
            × (b ≡ some svc)
            × (svc.lb.upstreams ≡ upstreams c)
            × IsValid svc.lb)
  Implements-cases none none h = inl (refl, refl)
  Implements-cases none (some svc) h = absurd h
  Implements-cases (some c) none h = absurd h
  Implements-cases (some c) (some svc) h = inr (c, svc, refl, refl, h.0, h.1)

  -- What serde and the types guarantee: at most 65,535 upstreams, and 32-bit weights.
  abbrev pub HasU32Weights : C → Type 0
  HasU32Weights c = (length (upstreams c) ≤ u16_max) × All HasU32Weight (upstreams c)

  pub init_services-Serves :
      (configured : Map C)
      → All (λ e. HasU32Weights e.1) configured
      → (services : Map Service) × (init_services upstreams configured ≡ returned services)
        × Serves configured services
  unfolding init_services new_service get
  init_services-Serves [] h = ([], refl, λ name. tt)
  init_services-Serves ((k, c) ∷ configured) h =
      let (lb, e, v, us, _) = new-IsValid (upstreams c) h.0.0 h.0.1 in
      let (rest, e', serves) = init_services-Serves configured h.1 in
      (
        (k, record { lb = lb }) ∷ rest,
        rw (e, e'),
        λ name. elim (Bool-cases (k == name)) [
          | inl hit ↦ rw hit (us, v)
          | inr miss ↦ rw miss (serves name)
        ],
      )

  -- What a lookup under `name` does.
  pub record Looked (name : Str) (configured : Map C) (services services' : Map Service)
      (r : Option Upstream) : Type 0 where
    pub serves : Serves configured services'
    pub others : (j : Str) → j ≢ name → get j services' ≡ get j services
    pub none_iff : (r ≡ none) ↔ (
        (get name configured ≡ none)
        ⊎ ((c : C) × (get name configured ≡ some c) × (shares (upstreams c) ≡ [])))
    pub chosen :
        (u : Upstream)
        → r ≡ some u
        → (c : C) × (get name configured ≡ some c) × Weighs u (upstreams c)

  Serves-insert :
      (name : Str) (configured : Map C) (services : Map Service) (c : C) (svc : Service)
      → Serves configured services
      → get name configured ≡ some c
      → Balances (upstreams c) svc
      → Serves configured (insert name svc services)
  Serves-insert name configured services c svc s e b j = elim (Bool-cases (name == j)) [
    | inl hit ↦
        let at_j : get j configured ≡ some c =
          subst (λ k. get k configured ≡ some c) (eq_to name j hit) e in
        rw (get-insert name j svc services, hit, at_j) b
    | inr miss ↦ rw (get-insert name j svc services, miss) (s j)
  ]

  get-insert_ne :
      (name j : Str) (svc : Service) (services : Map Service)
      → j ≢ name
      → get j (insert name svc services) ≡ get j services
  get-insert_ne name j svc services ne = elim (Bool-cases (name == j)) [
    | inl hit ↦ absurd (ne (sym (eq_to name j hit)))
    | inr miss ↦ rw (get-insert name j svc services, miss)
  ]

  endpoint-Looked_missing :
      (name : Str) (configured : Map C) (services : Map Service)
      → Serves configured services
      → get name configured ≡ none
      → get name services ≡ none
      → (r : Option Upstream) × (services' : Map Service) × (endpoint name services
          ≡ returned (r, services'))
        × Looked name configured services services' r
  unfolding endpoint
  endpoint-Looked_missing name configured services s no_config no_service = (
    none,
    services,
    rw (no_service, endpoint),
    record {
      serves = s;
      others = λ j _. refl;
      none_iff = (λ _. inl no_config, λ _. refl);
      chosen = λ u e. cc;
    },
  )

  endpoint-Looked_found :
      (name : Str) (configured : Map C) (services : Map Service) (c : C) (svc : Service)
      → Serves configured services
      → get name configured ≡ some c
      → get name services ≡ some svc
      → Balances (upstreams c) svc
      → (r : Option Upstream) × (services' : Map Service) × (endpoint name services
          ≡ returned (r, services'))
        × Looked name configured services services' r
  unfolding endpoint
  endpoint-Looked_found name configured services c svc s e e' (us, v) =
      let (r, lb', selected, v', us', idle, weighed) = select_total svc.lb v in
      let svc' : Service = record { lb = lb' } in
      (
        r,
        insert name svc' services,
        rw (e', endpoint, selected),
        record {
          serves = Serves-insert name configured services c svc' s e (us' ∙ us, v');
          others = λ j ne. get-insert_ne name j svc' services ne;
          none_iff = (
            λ n. inr (c, e, subst (λ u. shares u ≡ []) us (idle.0 n)),
            λ q. elim q [
              | inl n ↦ cc
              | inr (c', p, n) ↦
                  let same : upstreams c' ≡ svc.lb.upstreams =
                    ap upstreams (some-injective (sym p ∙ e)) ∙ sym us in
                  idle.1 (subst (λ u. shares u ≡ []) same n)
            ],
          );
          chosen = λ u picked. (c, e, subst (Weighs u) us (weighed u picked));
        },
      )

  -- A lookup never panics; it finds nothing exactly if no such service is configured or all its
  -- weights are zero, otherwise an upstream of the service that has a weight, and it changes no other
  -- service.
  pub endpoint-Looked :
      (name : Str) (configured : Map C) (services : Map Service)
      → Serves configured services
      → (r : Option Upstream) × (services' : Map Service) × (endpoint name services
          ≡ returned (r, services'))
        × Looked name configured services services' r
  endpoint-Looked name configured services s =
      elim (Implements-cases (get name configured) (get name services) (s name)) [
        | inl (e, e') ↦ endpoint-Looked_missing name configured services s e e'
        | inr (c, svc, e, e', us, v) ↦
            endpoint-Looked_found name configured services c svc s e e' (us, v)
      ]
