-- ===== src/Domain/Registered.antt =====
-- The map of the execution manager through its operations.
use dancex.Prelude.{
  suc, List, [], ◌∷◌, ◌++◌, none, String, ◌≡◌, refl, sym, subst, All, length, Bool-cases,
  Option-cases, Ordering, Ordering-cases, str_compare, inl, inr,
}
use dancex.StringMap.{SMap, assign}
use dancex.StringMap.Order.{IsSorted, Below}
use dancex.Split.Plan.{DeploymentPlan}
use dancex.Domain.Requests.{Call, Orb}
use dancex.Domain.Replies.{Outcome, done, throws, blocked}
use dancex.Domain.Nodes.{DomainApplicationManager, NmResult, prepared}
use dancex.Domain.Manager.{reference_of, kept}
use dancex.Domain.Manager
use dancex.Domain.Execution.{Managed, get_managers, destroy_in}

-- What holds of the key and the plan of each entry.
abbrev pub Entries :
    {Any Ref : Type 0} → (String → DeploymentPlan Any → Type 0) → SMap (Managed Any Ref) → Type 0
Entries R = All (λ e. R e.0 e.1.1.plan)

-- The map is in key order, so that a key stands in it once, and each manager is under its plan's UUID.
abbrev pub IsRegistry : {Any Ref : Type 0} → SMap (Managed Any Ref) → Type 0
IsRegistry managers = IsSorted managers × Entries (λ uuid plan. plan.uuid ≡ uuid) managers

module _ {Any Ref Conn W : Type 0} (orb : Orb (Call Any Ref Conn) Ref Conn W)
    (activate : W → Ref × W) where
  pub prepared-plan :
      (results : List (NmResult Ref)) (s : DomainApplicationManager Any Ref)
      → (prepared orb results s).0.plan ≡ s.plan
  unfolding prepared
  prepared-plan [] s = refl
  prepared-plan (result ∷ results) s = elim (Bool-cases (orb.is_nil result.am)) [
    | inl e ↦ rw (e, prepared) (prepared-plan results s)
    | inr e ↦
        rw (e, prepared)
          (prepared-plan results (record s {
            sub_app_mgr = s.sub_app_mgr ++ (result.am, result.nm) ∷ [];
            node_ids = s.node_ids ++ (result.nm, result.node) ∷ [];
          }))
  ]

  destroy_manager-plan :
      (s : DomainApplicationManager Any Ref) (w : W)
      → (Manager.destroy_manager orb activate s w).1.plan ≡ s.plan
  unfolding Manager.destroy_manager
  destroy_manager-plan s w =
      elim (Option-cases
        (Manager.destroy_running orb activate (suc (length s.running_app)) s.running_app w)) [
          | inl e ↦ rw (e, Manager.destroy_manager) refl
          | inr ((running, w'), e) ↦ rw (e, Manager.destroy_manager) refl
        ]

  module _ (R : String → DeploymentPlan Any → Type 0) where
    kept-Entries :
        (outcome : Outcome Unit) (uuid : String) (entry : Managed Any Ref)
        (rest : SMap (Managed Any Ref))
        → R uuid entry.1.plan
        → Entries R rest
        → Entries R (kept outcome (uuid, entry) ++ rest)
    kept-Entries (done u) uuid entry rest r a = a
    kept-Entries (throws ex) uuid entry rest r a = (r, a)
    kept-Entries blocked uuid entry rest r a = (r, a)

    pub destroy_in-Entries :
        (manager : Ref) (managers : SMap (Managed Any Ref)) (w : W)
        → Entries R managers
        → Entries R (destroy_in orb activate manager managers w).1
    unfolding destroy_in
    destroy_in-Entries manager [] w a = tt
    destroy_in-Entries manager ((uuid, (active, dam)) ∷ managers) w a =
        let (ref, active_w) = reference_of activate active w in
        let (outcome, dam', destroyed) = Manager.destroy_manager orb activate dam active_w in
        elim (Bool-cases (orb.is_equivalent manager ref)) [
          | inl e ↦
              rw (e, destroy_in)
                (kept-Entries outcome uuid (none, dam') managers
                  (subst (R uuid) (sym (destroy_manager-plan dam active_w)) a.0) a.1)
          | inr e ↦ rw (e, destroy_in) (a.0, destroy_in-Entries manager managers active_w a.1)
        ]

    pub get_managers-Entries :
        (managers : SMap (Managed Any Ref)) (w : W)
        → Entries R managers
        → Entries R (get_managers orb activate managers w).1
    unfolding get_managers
    get_managers-Entries [] w a = tt
    get_managers-Entries ((uuid, (active, dam)) ∷ managers) w a =
        (a.0, get_managers-Entries managers (reference_of activate active w).1 a.1)

    pub assign-Entries :
        (uuid : String) (entry : Managed Any Ref) (managers : SMap (Managed Any Ref))
        → R uuid entry.1.plan
        → Entries R managers
        → Entries R (assign uuid entry managers)
    unfolding assign
    assign-Entries uuid entry [] r a = (r, tt)
    assign-Entries uuid entry ((key, other) ∷ managers) r a =
        elim (Ordering-cases (str_compare uuid key)) [
          | inl e ↦ rw (e, assign) (r, a)
          | inr (inl e) ↦ rw (e, assign) (r, a.1)
          | inr (inr e) ↦ rw (e, assign) (a.0, assign-Entries uuid entry managers r a.1)
        ]

  kept-IsSorted :
      (outcome : Outcome Unit) (uuid : String) (entry : Managed Any Ref)
      (rest : SMap (Managed Any Ref))
      → Below uuid rest
      → IsSorted rest
      → IsSorted (kept outcome (uuid, entry) ++ rest)
  kept-IsSorted (done u) uuid entry rest b s = s
  kept-IsSorted (throws ex) uuid entry rest b s = (b, s)
  kept-IsSorted blocked uuid entry rest b s = (b, s)

  pub destroy_in-IsSorted :
      (manager : Ref) (managers : SMap (Managed Any Ref)) (w : W)
      → IsSorted managers
      → IsSorted (destroy_in orb activate manager managers w).1
  unfolding destroy_in
  destroy_in-IsSorted manager [] w s = tt
  destroy_in-IsSorted manager ((uuid, (active, dam)) ∷ managers) w s =
      let (ref, active_w) = reference_of activate active w in
      let (outcome, dam', destroyed) = Manager.destroy_manager orb activate dam active_w in
      elim (Bool-cases (orb.is_equivalent manager ref)) [
        | inl e ↦ rw (e, destroy_in) (kept-IsSorted outcome uuid (none, dam') managers s.0 s.1)
        | inr e ↦
            rw (e, destroy_in)
              (
                destroy_in-Entries (λ key plan. str_compare uuid key ≡ Ordering.lt) manager managers
                    active_w s.0,
                destroy_in-IsSorted manager managers active_w s.1,
              )
      ]

  pub get_managers-IsSorted :
      (managers : SMap (Managed Any Ref)) (w : W)
      → IsSorted managers
      → IsSorted (get_managers orb activate managers w).1
  unfolding get_managers
  get_managers-IsSorted [] w s = tt
  get_managers-IsSorted ((uuid, (active, dam)) ∷ managers) w s =
      let after = (reference_of activate active w).1 in
      (
        get_managers-Entries (λ key plan. str_compare uuid key ≡ Ordering.lt) managers after s.0,
        get_managers-IsSorted managers after s.1,
      )
