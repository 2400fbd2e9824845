-- ===== src/Transport/Admission.antt =====
-- Which requests reach the tasks.
use golang_staterpack.Prelude.{
  ℤ, Bool, true, false, ◌≡◌, refl, sym, ap, subst, ◌++◌, ◌⊎◌, inl, inr, List, [], ◌∷◌, none, some,
  Bool-cases, Option-cases, Memᴰ,
}
use golang_staterpack.Model.{Duration}
use golang_staterpack.Service.Defs.{World, TaskService}
use golang_staterpack.Transport.Defs.{Response}
use golang_staterpack.Transport.Router.{
  Action, Registration, Arrival, HealthHandler, Served, on, uses, task_routes, registrations,
  matched, serve, limited,
}

-- A request that matches the route of a task matches the prefix `/api/v1`.
abbrev pub IsNested : (Registration → Bool) → Type 0
IsNested matches =
    (r : Registration)
    → Memᴰ r task_routes
    → matches r ≡ true
    → matches (uses "/api/v1" Action.limits) ≡ true

abbrev pub ready_route : Registration
ready_route = on "GET" "/health/ready" Action.readies

-- Behind the limiter.
abbrev inner : List Registration
inner = task_routes ++ (uses "" Action.missing ∷ [])

module _ {D C B : Type 0} (s : TaskService D C B) (health : HealthHandler D C) (limit : ℤ)
    (window : Duration) (a : Arrival) (matches : Registration → Bool) (w : World D C B) where
  -- The database and the broker are left alone; or the request has asked whether the process is ready,
  -- and the database has been pinged once; or the limiter has let it pass.
  abbrev pub IsGuarded : Served s health limit window a → Type 0
  IsGuarded r =
      ((r.1.db ≡ w.db) × (r.1.broker ≡ w.broker))
      ⊎ (matches ready_route ≡ true)
        × (r.1.db ≡ (health.ping_postgres w.db).1)
        × (r.1.broker ≡ w.broker)
      ⊎ (matches (uses "/api/v1" Action.limits) ≡ true)
        × ((limited s health limit window a w).0.1 ≡ none)

  abbrev Guards : List Registration → Type 0
  Guards rs = IsGuarded (serve s health limit window a (matched matches rs) w)

  skip :
      (r : Registration) (rs : List Registration) → matches r ≡ false → Guards rs → Guards (r ∷ rs)
  unfolding matched
  skip r rs e h = rw e h

  skip_all :
      (rs more : List Registration)
      → ((r : Registration) → Memᴰ r rs → matches r ≡ false)
      → Guards more
      → Guards (rs ++ more)
  skip_all [] more off h = h
  skip_all (r ∷ rs) more off h =
      skip r (rs ++ more) (off r (Memᴰ.head refl))
        (skip_all rs more (λ r' at. off r' (Memᴰ.tail at)) h)

  -- A registration that hands every request on.
  pass :
      (r : Registration) (rs : List Registration)
      → ((acts : List Action)
          → serve s health limit window a (r.action ∷ acts) w
            ≡ serve s health limit window a acts w)
      → Guards rs
      → Guards (r ∷ rs)
  unfolding matched
  pass r rs on_it h = elim (Bool-cases (matches r)) [
    | inl e ↦ rw (e, on_it (matched matches rs)) h
    | inr e ↦ rw e h
  ]

  -- A registration that answers and touches nothing.
  halt :
      (r : Registration) (rs : List Registration)
      → ((acts : List Action) → (serve s health limit window a (r.action ∷ acts) w).1 ≡ w)
      → Guards rs
      → Guards (r ∷ rs)
  unfolding matched
  halt r rs alone h = elim (Bool-cases (matches r)) [
    | inl e ↦
        let same = alone (matched matches rs) in
        rw e (inl (ap (λ x. x.db) same, ap (λ x. x.broker) same))
    | inr e ↦ rw e h
  ]

  -- The probe of readiness.
  matched_on :
      (r : Registration) (rs : List Registration)
      → matches r ≡ true
      → matched matches (r ∷ rs) ≡ r.action ∷ matched matches rs
  unfolding matched
  matched_on r rs e = rw e refl

  probe : (rs : List Registration) → Guards rs → Guards (ready_route ∷ rs)
  unfolding serve
  probe rs h = elim (Bool-cases (matches ready_route)) [
    | inl e ↦
        subst (λ acts. IsGuarded (serve s health limit window a acts w))
          (sym (matched_on ready_route rs e)) (inr (inl (e, refl, refl)))
    | inr e ↦ skip ready_route rs e h
  ]

  -- Outside the prefix.
  outside :
      matches (uses "/api/v1" Action.limits) ≡ false
      → IsNested matches
      → (r : Registration) → Memᴰ r task_routes
      → matches r ≡ false
  outside e nested r at = elim (Bool-cases (matches r)) [
    | inl h ↦ let inside = nested r at h in absurd (cc)
    | inr h ↦ h
  ]

  tail-Guards : Guards (uses "" Action.missing ∷ [])
  unfolding serve matched
  tail-Guards = halt (uses "" Action.missing) [] (λ acts. refl) (inl (refl, refl))

  refused :
      (acts : List Action) (refusal : Response)
      → (limited s health limit window a w).0.1 ≡ some refusal
      → let r = serve s health limit window a (Action.limits ∷ acts) w in
        (r.1.db ≡ w.db) × (r.1.broker ≡ w.broker)
  unfolding serve
  refused acts refusal stop = rw (serve, stop) (refl, refl)

  limiter-Guards : IsNested matches → Guards (uses "/api/v1" Action.limits ∷ inner)
  unfolding matched
  limiter-Guards nested = elim (Bool-cases (matches (uses "/api/v1" Action.limits))) [
    | inl e ↦ elim (Option-cases (limited s health limit window a w).0.1) [
      | inl none_set ↦ inr (inr (e, none_set))
      | inr (refusal, stop) ↦ rw e (inl (refused (matched matches inner) refusal stop))
    ]
    | inr e ↦
        skip (uses "/api/v1" Action.limits) inner e
          (skip_all task_routes (uses "" Action.missing ∷ []) (outside e nested) tail-Guards)
  ]

-- With a limiter, no request touches the database or the broker but a probe of readiness, which pings
-- the database once, unless it matches the prefix `/api/v1` and the limiter has let it pass: neither
-- a probe of liveness, nor an unknown route, nor a request that the limiter refuses.
pub serve-IsGuarded :
    {D C B : Type 0} (s : TaskService D C B) (health : HealthHandler D C) (limit : ℤ)
    (window : Duration) (a : Arrival) (matches : Registration → Bool)
    → IsNested matches
    → (w : World D C B)
    → IsGuarded s health limit window a matches w
        (serve s health limit window a (matched matches (registrations true)) w)
unfolding serve
serve-IsGuarded s health limit window a matches nested w =
    pass s health limit window a matches w (uses "" Action.request_ids)
      (uses "" Action.recovers ∷ probes) (λ acts. refl)
      (pass s health limit window a matches w (uses "" Action.recovers) probes (λ acts. refl)
        (halt s health limit window a matches w live_route (ready_route ∷ guarded) (λ acts. refl)
          (probe s health limit window a matches w guarded
            (limiter-Guards s health limit window a matches w nested))))
  where
    live_route : Registration
    live_route = on "GET" "/health/live" Action.lives

    guarded : List Registration
    guarded = uses "/api/v1" Action.limits ∷ inner

    probes : List Registration
    probes = live_route ∷ ready_route ∷ guarded
