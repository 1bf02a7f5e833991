-- ===== src/Split/Copying.antt =====
-- The copying phase of `Split_Plan::split_plan` (tools/split_plan/split_plan.cpp), its finalization
-- and the whole function. A reference that is out of range is undefined in the source; here it gives
-- `none`.
use dancex.Prelude.{
  ◌>>=◌, ℕ, ◌+◌, List, [], ◌∷◌, ◌++◌, Option, none, some, Bool, false, String, if◌then◌else◌,
  length, get_elem?, ◌==◌, is_empty, str_eq, ◌||◌,
}
use dancex.Split.Plan.{
  DeploymentPlan, Instance, Implementation, Artifact, Endpoint, Connection, PlanLocality,
}
use dancex.Split.Interface.{Splitter, SubPlans}
use dancex.Split.Selection.{select_phase, matching_instances}

-- The artifacts of an implementation that go to `node`, appended to those of the sub plan, and the
-- references to them. `next` is `artifact_offset + iter_off`.
unfoldable pub copy_artifacts :
    List Artifact → String → List ℕ → ℕ → Option (List Artifact × List ℕ)
copy_artifacts artifacts node [] next = some ([], [])
copy_artifacts artifacts node (artifact_ref ∷ refs) next = elim (get_elem? artifacts artifact_ref) [
  | none ↦ none
  | some add ↦
      let wanted = is_empty add.node || str_eq node add.node in
      do
        (copies, seq) ← copy_artifacts artifacts node refs (if wanted then next + 1 else next)
        some (if wanted then (add ∷ copies, next ∷ seq) else (copies, seq))
]

-- An endpoint goes to the copy of its connection, found by name, or to a new copy.
unfoldable pub add_endpoint : Connection → Endpoint → List Connection → List Connection
add_endpoint connection endpoint [] = record connection { internal_endpoint = endpoint ∷ [] } ∷ []
add_endpoint connection endpoint (copied ∷ copies) =
    if str_eq connection.name copied.name
    then record copied { internal_endpoint = copied.internal_endpoint ++ endpoint ∷ [] } ∷ copies
    else copied ∷ add_endpoint connection endpoint copies

unfoldable pub copy_endpoints :
    ℕ → ℕ → Connection → List Endpoint → List Connection → List Connection
unfolding add_endpoint
copy_endpoints pos index_ins connection [] copies = copies
copy_endpoints pos index_ins connection (endpoint ∷ endpoints) copies =
    copy_endpoints pos index_ins connection endpoints (
      if pos == endpoint.instance_ref
      then add_endpoint connection (record endpoint { instance_ref = index_ins }) copies
      else copies)

unfoldable pub copy_connections : ℕ → ℕ → List Connection → List Connection → List Connection
unfolding copy_endpoints
copy_connections pos index_ins [] copies = copies
copy_connections pos index_ins (connection ∷ connections) copies =
    copy_connections pos index_ins connections
      (copy_endpoints pos index_ins connection connection.internal_endpoint copies)

-- The loop over the references of one constraint.
unfoldable pub copy_refs : ℕ → ℕ → PlanLocality → List ℕ → PlanLocality → PlanLocality
copy_refs pos index_ins loc [] copied = copied
copy_refs pos index_ins loc (ref ∷ refs) copied = copy_refs pos index_ins loc refs (
    if ref == pos
    then record {
      constraint = loc.constraint;
      constrained_instance_ref = copied.constrained_instance_ref ++ index_ins ∷ [];
    }
    else copied)

unfoldable pub refers_to : ℕ → List ℕ → Bool
refers_to pos [] = false
refers_to pos (ref ∷ refs) = ref == pos || refers_to pos refs

-- The constraint of the sub plan at the same index is read where a reference is the instance; where
-- the sub plan has none there, that is undefined.
unfoldable pub copy_localities :
    ℕ → ℕ → List PlanLocality → List PlanLocality → Option (List PlanLocality)
unfolding copy_refs refers_to
copy_localities pos index_ins [] copies = some copies
copy_localities pos index_ins (loc ∷ locs) [] =
    let rest = copy_localities pos index_ins locs [] in
    if refers_to pos loc.constrained_instance_ref then none else rest
copy_localities pos index_ins (loc ∷ locs) (copied ∷ copies) = do
  rest ← copy_localities pos index_ins locs copies
  some (copy_refs pos index_ins loc loc.constrained_instance_ref copied ∷ rest)

module _ {Any : Type 0} (plan : DeploymentPlan Any) where
  -- The sub plan with instance, implementation, artifacts, connections and constraints added.
  unfoldable pub added :
      ℕ
      → Instance Any
      → Implementation Any
      → List Artifact
      → List ℕ
      → List PlanLocality
      → DeploymentPlan Any
      → DeploymentPlan Any
  unfolding copy_connections
  added pos inst impl artifacts seq localities sub_plan =
      let index_ins = length sub_plan.instances in
      let index_imp = length sub_plan.implementation in
      record sub_plan {
        implementation = sub_plan.implementation ++ record impl { artifact_ref = seq } ∷ [];
        artifact = sub_plan.artifact ++ artifacts;
        instances = sub_plan.instances ++ record inst { implementation_ref = index_imp } ∷ [];
        connection = copy_connections pos index_ins plan.connection sub_plan.connection;
        locality_constraint = localities;
      }

  -- The body of the loop over the instances of a sub plan.
  unfoldable pub copy_instance : DeploymentPlan Any → ℕ → Option (DeploymentPlan Any)
  unfolding copy_artifacts copy_localities added
  copy_instance sub_plan pos = do
    inst ← get_elem? plan.instances pos
    impl ← get_elem? plan.implementation inst.implementation_ref
    (artifacts, seq) ←
        copy_artifacts plan.artifact inst.node impl.artifact_ref (length sub_plan.artifact)
    localities ←
        copy_localities pos (length sub_plan.instances) plan.locality_constraint
          sub_plan.locality_constraint
    some (added pos inst impl artifacts seq localities sub_plan)

  unfoldable pub copy_instances : DeploymentPlan Any → List ℕ → Option (DeploymentPlan Any)
  unfolding copy_instance
  copy_instances sub_plan [] = some sub_plan
  copy_instances sub_plan (pos ∷ instances) = do
    sub_plan' ← copy_instance sub_plan pos
    copy_instances sub_plan' instances

module _ {Any : Type 0} (s : Splitter Any) (embed : String → Any)
    (generate_uuid : String → ℕ → String) (plan : DeploymentPlan Any) where
  open s use {Key, Filter, finalize_sub_plan}

  -- Each sub plan is rebound under its own key.
  unfoldable pub copy_phase : SubPlans s → Option (SubPlans s)
  unfolding copy_instances
  copy_phase [] = some []
  copy_phase ((text, (key, sub_plan)) ∷ plans) = do
    sub_plan' ← copy_instances plan sub_plan (matching_instances s embed generate_uuid plan key)
    plans' ← copy_phase plans
    some ((text, (key, sub_plan')) ∷ plans')

  -- The finalization writes through the key of the map entry, which keeps its place.
  unfoldable pub finalize_phase : SubPlans s → SubPlans s
  finalize_phase [] = []
  finalize_phase ((text, (key, sub_plan)) ∷ plans) =
      let (sub_plan', key') = finalize_sub_plan sub_plan key in
      (text, (key', sub_plan')) ∷ finalize_phase plans

  unfoldable pub split_plan : Filter → Option (SubPlans s)
  unfolding select_phase matching_instances copy_phase finalize_phase
  split_plan filter = do
    plans ← copy_phase (select_phase s embed generate_uuid plan filter)
    some (finalize_phase plans)
