-- ===== src/Domain/Steps.antt =====
-- The execution manager through any sequence of its operations.
use dancex.Prelude.{
  ℕ, List, Option, none, some, String, ◌≡◌, refl, ap, sym, subst, Option-cases, inl, inr,
}
use dancex.NodeLocator.{Node, locate_node}
use dancex.StringMap.Order.{assign-IsSorted}
use dancex.Split.Plan.{DeploymentPlan}
use dancex.Split.Node.{node_splitter}
use dancex.Split.Copying.{split_plan}
use dancex.Domain.Requests.{Call, Orb, send_all, collect, idle}
use dancex.Domain.Replies.{Outcome}
use dancex.Domain.Nodes.{
  DomainApplicationManager, new_domain_application_manager, plan_requests, prepare_handler,
}
use dancex.Domain.Manager
use dancex.Domain.Execution.{
  ExecutionManager, prepare_plan, get_managers, destroy_manager, add_node_manager, load_cdd,
}
use dancex.Domain.Managed.{PrepareEnds, prepared_by, prepare_plan-PrepareEnds}
use dancex.Domain.Registered.{
  IsRegistry, prepared-plan, assign-Entries, destroy_in-Entries, destroy_in-IsSorted,
  get_managers-Entries, get_managers-IsSorted,
}

module _ {Any Ref Conn W : Type 0} (orb : Orb (Call Any Ref Conn) Ref Conn W)
    (activate : W → Ref × W) where
  abbrev KeepsPlan :
      DeploymentPlan Any → Option (Outcome Unit × DomainApplicationManager Any Ref × W) → Type 0
  KeepsPlan plan none = Unit
  KeepsPlan plan (some (outcome, dam, w)) = dam.plan ≡ plan

  prepare_plan-KeepsPlan :
      (embed : String → Any) (generate_uuid : String → ℕ → String) (locate : String → Option Ref)
      (s : DomainApplicationManager Any Ref) (w : W)
      → KeepsPlan s.plan (Manager.prepare_plan orb activate embed generate_uuid locate s w)
  unfolding Manager.prepare_plan
  prepare_plan-KeepsPlan embed generate_uuid locate s w =
      elim (Option-cases (split_plan node_splitter embed generate_uuid s.plan "")) [
        | inl e ↦ rw (e, Manager.prepare_plan) tt
        | inr (plans, e) ↦
            let handler = prepare_handler orb in
            let (missing, requests) = plan_requests orb locate plans in
            let results =
              (collect orb handler (send_all orb handler requests (idle orb handler w))).0 in
            elim (Option-cases missing) [
              | inr (key, m) ↦ rw (e, m, Manager.prepare_plan) refl
              | inl m ↦ elim (Option-cases results) [
                | inl r ↦ rw (e, m, r, Manager.prepare_plan) refl
                | inr (list, r) ↦
                    rw (e, m, r, Manager.prepare_plan) (prepared-plan orb activate list s)
              ]
            ]
      ]

module _ {Any Ref Conn Obj W : Type 0} (orb : Orb (Call Any Ref Conn) Ref Conn W)
    (activate : W → Ref × W) where
  -- A sequence of operations, whatever they answer and whatever else has changed between them.
  pub data Steps : ExecutionManager Any Ref Obj → ExecutionManager Any Ref Obj → Type 0 where
    nothing : {s : ExecutionManager Any Ref Obj} → Steps s s
    prepares :
        {s t u : ExecutionManager Any Ref Obj} (embed : String → Any)
        (generate_uuid : String → ℕ → String) (string_to_object : String → Option Obj)
        (narrow : Option Obj → Option Ref) (plan : DeploymentPlan Any)
        (outcome : Outcome (Option Ref)) (w w' : W)
        → prepare_plan orb activate embed generate_uuid string_to_object narrow plan s w
          ≡ some (outcome, t, w')
        → Steps t u
        → Steps s u
    destroys :
        {s u : ExecutionManager Any Ref Obj} (manager : Ref) (w : W)
        → Steps (destroy_manager orb activate manager s w).1 u
        → Steps s u
    asks :
        {s u : ExecutionManager Any Ref Obj} (w : W)
        → Steps (record s { managers = (get_managers orb activate s.managers w).1 }) u
        → Steps s u
    adds :
        {s u : ExecutionManager Any Ref Obj} (name ior : String)
        → Steps (add_node_manager name ior s) u
        → Steps s u
    loads :
        {s u : ExecutionManager Any Ref Obj} (extract_text : Any → Option String)
        (extract_port : Any → Option ℕ) (read_domain : String → String → Option (List (Node Any)))
        (filename fmt : String)
        → Steps (load_cdd extract_text extract_port read_domain filename fmt s).1 u
        → Steps s u

  prepare_plan-IsRegistry :
      {t : ExecutionManager Any Ref Obj} (embed : String → Any)
      (generate_uuid : String → ℕ → String) (string_to_object : String → Option Obj)
      (narrow : Option Obj → Option Ref) (plan : DeploymentPlan Any)
      (s : ExecutionManager Any Ref Obj) (outcome : Outcome (Option Ref)) (w w' : W)
      → prepare_plan orb activate embed generate_uuid string_to_object narrow plan s w
        ≡ some (outcome, t, w')
      → IsRegistry s.managers
      → IsRegistry t.managers
  prepare_plan-IsRegistry {t} embed generate_uuid string_to_object narrow plan s outcome w w' e
        (sorted, own) =
      let locate = λ (node : String). locate_node string_to_object narrow node s.locator in
      elim (subst
        (PrepareEnds orb activate embed generate_uuid plan s w
          (prepared_by orb activate embed generate_uuid plan s w locate))
        e
        (prepare_plan-PrepareEnds orb activate embed generate_uuid plan s w string_to_object
          narrow)) [
            | inl (dam, v, p, o, n, same) ↦
                let kept = subst (KeepsPlan orb activate plan) p (
                  prepare_plan-KeepsPlan orb activate embed generate_uuid locate
                    (new_domain_application_manager plan) w) in
                subst (λ x. IsRegistry x.managers) (sym same)
                  (
                    assign-IsSorted plan.uuid (some (activate v).0, dam) s.managers sorted,
                    assign-Entries orb activate (λ uuid p. p.uuid ≡ uuid) plan.uuid
                        (some (activate v).0, dam) s.managers (ap (λ p. p.uuid) kept) own,
                  )
            | inr (n, same) ↦ subst (λ x. IsRegistry x.managers) (sym same) (sorted, own)
          ]

  -- From a map that is in key order and has each manager under its plan's UUID, any sequence of
  -- operations of the execution manager leads to such a map: plans prepared or not, managers
  -- destroyed or not, the managers asked for, and nodes added or loaded.
  pub run-IsRegistry :
      {s u : ExecutionManager Any Ref Obj}
      → IsRegistry s.managers
      → Steps s u
      → IsRegistry u.managers
  unfolding destroy_manager add_node_manager load_cdd
  run-IsRegistry r nothing = r
  run-IsRegistry {s} r
        (prepares embed generate_uuid string_to_object narrow plan outcome w w' e steps) =
      run-IsRegistry
        (prepare_plan-IsRegistry embed generate_uuid string_to_object narrow plan s outcome w w' e
          r)
        steps
  run-IsRegistry {s} (sorted, own) (destroys manager w steps) =
      run-IsRegistry
        (
          destroy_in-IsSorted orb activate manager s.managers w sorted,
          destroy_in-Entries orb activate (λ uuid plan. plan.uuid ≡ uuid) manager s.managers w own,
        )
        steps
  run-IsRegistry {s} (sorted, own) (asks w steps) =
      run-IsRegistry
        (
          get_managers-IsSorted orb activate s.managers w sorted,
          get_managers-Entries orb activate (λ uuid plan. plan.uuid ≡ uuid) s.managers w own,
        )
        steps
  run-IsRegistry r (adds name ior steps) = run-IsRegistry r steps
  run-IsRegistry r (loads extract_text extract_port read_domain filename fmt steps) =
      run-IsRegistry r steps
