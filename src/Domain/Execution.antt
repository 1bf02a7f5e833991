-- ===== src/Domain/Execution.antt =====
-- dancex11/domain_deployment_handler/dancex11_execution_manager_impl.{h,cpp}: `ExecutionManager_Impl`.
-- The shutdown handler and the ORB's `shutdown` only throw or return, and are left out.
use dancex.Prelude.{ℕ, List, [], ◌∷◌, ◌++◌, ◌>>=◌, Option, none, some, String, if◌then◌else◌}
use dancex.StringMap.{SMap, find, assign}
use dancex.NodeLocator.{Node, NodeLocator, locate_node, process_cdd, store_ior}
use dancex.Utility.Exceptions.{plan_error, start_error}
use dancex.Split.Plan.{DeploymentPlan}
use dancex.Domain.Requests.{user, invalid_reference, Call, Orb}
use dancex.Domain.Replies.{Outcome, done, throws, blocked}
use dancex.Domain.Nodes.{DomainApplicationManager, new_domain_application_manager}
use dancex.Domain.Manager.{reference_of}
use dancex.Domain.Manager

-- A domain application manager with its reference, while its servant is active.
abbrev pub Managed : Type 0 → Type 0 → Type 0
Managed Any Ref = Option Ref × DomainApplicationManager Any Ref

pub record ExecutionManager (Any Ref Obj : Type 0) : Type 0 where
  pub managers : SMap (Managed Any Ref)
  pub locator : NodeLocator Obj

unfoldable pub add_node_manager :
    {Any Ref Obj : Type 0}
    → String
    → String
    → ExecutionManager Any Ref Obj
    → ExecutionManager Any Ref Obj
unfolding store_ior
add_node_manager name ior s = record s { locator = store_ior name ior s.locator }

unfoldable pub load_cdd :
    {Any Ref Obj : Type 0}
    → (Any → Option String)
    → (Any → Option ℕ)
    → (String → String → Option (List (Node Any)))
    → String
    → String
    → ExecutionManager Any Ref Obj
    → Outcome Unit × ExecutionManager Any Ref Obj
unfolding process_cdd
load_cdd extract_text extract_port read_domain filename fmt s =
    let (ok, locator) = process_cdd extract_text extract_port read_domain filename fmt s.locator in
    (
      if ok
          then done tt
          else throws (
              user start_error
                (record { name = "ExecutionManager_Impl"; reason = "Error loading cdd file" })),
      record s { locator = locator },
    )

module _ {Any Ref Conn W : Type 0} (orb : Orb (Call Any Ref Conn) Ref Conn W)
    (activate : W → Ref × W) where
  -- The `try` block of `preparePlan` and its handlers, which give nil.
  unfoldable pub prepare_new :
      {Obj : Type 0}
      → (String → Any)
      → (String → ℕ → String)
      → (String → Option Ref)
      → DeploymentPlan Any
      → ExecutionManager Any Ref Obj
      → W
      → Option (Outcome (Option Ref) × ExecutionManager Any Ref Obj × W)
  unfolding Manager.prepare_plan assign
  prepare_new embed generate_uuid locate plan s w = do
    (outcome, dam, w') ←
        Manager.prepare_plan orb activate embed generate_uuid locate
          (new_domain_application_manager plan) w
    let (ref, active) = activate w'
    some (elim outcome [
      | done u ↦ (
        done (some ref),
        record s { managers = assign plan.uuid (some ref, dam) s.managers },
        active,
      )
      | throws ex ↦ (done none, s, w')
      | blocked ↦ (blocked, s, w')
    ])

  -- `preparePlan`. A nil reference is `none`.
  unfoldable pub prepare_plan :
      {Obj : Type 0}
      → (String → Any)
      → (String → ℕ → String)
      → (String → Option Obj)
      → (Option Obj → Option Ref)
      → DeploymentPlan Any
      → ExecutionManager Any Ref Obj
      → W
      → Option (Outcome (Option Ref) × ExecutionManager Any Ref Obj × W)
  unfolding find prepare_new locate_node
  prepare_plan embed generate_uuid string_to_object narrow plan s w =
      let prepared =
        prepare_new embed generate_uuid (λ node. locate_node string_to_object narrow node s.locator)
          plan s w in
      elim (find plan.uuid s.managers) [
        | some dam ↦ some (
          throws (
              user plan_error
                (record { name = plan.uuid; reason = "Plan with same UUID already exists" })),
          s,
          w,
        )
        | none ↦ prepared
      ]

  unfoldable pub get_managers : SMap (Managed Any Ref) → W → List Ref × SMap (Managed Any Ref) × W
  unfolding reference_of
  get_managers [] w = ([], [], w)
  get_managers ((uuid, (active, dam)) ∷ managers) w =
      let (ref, w') = reference_of activate active w in
      let (refs, managers', w'') = get_managers managers w' in
      (ref ∷ refs, (uuid, (some ref, dam)) ∷ managers', w'')

  -- The search of `destroyManager`; `none` where no manager is equivalent.
  unfoldable pub destroy_in :
      Ref → SMap (Managed Any Ref) → W → Option (Outcome Unit) × SMap (Managed Any Ref) × W
  unfolding reference_of Manager.destroy_manager
  destroy_in manager [] w = (none, [], w)
  destroy_in manager ((uuid, (active, dam)) ∷ managers) w =
      let (ref, w') = reference_of activate active w in
      let (outcome, dam', destroyed) = Manager.destroy_manager orb activate dam w' in
      let (found, rest, searched) = destroy_in manager managers w' in
      if orb.is_equivalent manager ref
      then (some outcome, Manager.kept outcome (uuid, (none, dam')) ++ managers, destroyed)
      else (found, (uuid, (some ref, dam)) ∷ rest, searched)

  unfoldable pub destroy_manager :
      {Obj : Type 0}
      → Ref
      → ExecutionManager Any Ref Obj
      → W
      → Outcome Unit × ExecutionManager Any Ref Obj × W
  unfolding destroy_in
  destroy_manager manager s w =
      let (found, managers, w') = destroy_in manager s.managers w in
      (
        elim found [ none ↦ throws invalid_reference | some outcome ↦ outcome ],
        record s { managers = managers },
        w',
      )
