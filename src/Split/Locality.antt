-- ===== src/Split/Locality.antt =====
-- tools/split_plan/locality_splitter.{h,cpp}: a sub plan for each locality (process) on a node.
-- An index or a size is below 2 ^ 32, so `truncate_cast<uint32_t>` of a size is the size.
pub mod Constraints
pub mod Consistent
pub mod Manager
pub mod Bugs
use dancex.Prelude.{
  ℕ, zero, suc, ◌+◌, ◌-◌, List, [], ◌∷◌, ◌++◌, Option, none, some, Bool, true, false, String,
  if◌then◌else◌, length, get_elem?, ◌==◌, ◌&&◌, ◌||◌, not, ltb, is_empty, str_eq, str_append,
}
use dancex.Utility.{Property, impl_type, get_instance_type}
use dancex.Split.Plan.{
  DeploymentPlan, Instance, Implementation, PlanLocality, LocalityKind, no_constraint, same_process,
  different_process,
}
use dancex.Split.Interface.{Splitter}
use dancex.Split.Node.{node_of, derived_label}

abbrev pub dance_localitymanager : String
dance_localitymanager = "nl.remedy.it.DnCX11.LocalityManager"

abbrev pub dance_lm_processname : String
dance_lm_processname = "nl.remedy.it.DnCX11.LocalityManager.ProcessName"

-- `std::find` of a number, and of a text.
unfoldable pub contains : List ℕ → ℕ → Bool
contains [] i = false
contains (x ∷ xs) i = if x == i then true else contains xs i

unfoldable pub contains_name : List String → String → Bool
contains_name [] s = false
contains_name (x ∷ xs) s = if str_eq x s then true else contains_name xs s

pub record LocalityKey : Type 0 where
  pub plan_uuid : String
  pub node : String
  pub instances : List ℕ
  pub loc_manager : ℕ
  pub implicit_lm : Bool

-- `(uint32_t)ULONG_MAX` stands for no locality manager.
abbrev pub empty_key : LocalityKey
empty_key = record {
  plan_uuid = "";
  node = "";
  instances = [];
  loc_manager = 4294967295;
  implicit_lm = true;
}

unfoldable pub has_instance : LocalityKey → ℕ → Bool
unfolding contains
has_instance key i = contains key.instances i

unfoldable pub add_instance : ℕ → LocalityKey → LocalityKey
add_instance i key = record key { instances = key.instances ++ i ∷ [] }

unfoldable pub has_locality_manager : LocalityKey → Bool
has_locality_manager key = ltb key.loc_manager (length key.instances)

unfoldable pub locality_manager_instance : LocalityKey → ℕ
unfolding has_locality_manager
locality_manager_instance key = if has_locality_manager key then key.loc_manager else 0

unfoldable pub set_locality_manager : ℕ → Bool → LocalityKey → LocalityKey
set_locality_manager sub_plan_index implicit_lm key =
    if ltb sub_plan_index (length key.instances)
    then record key { loc_manager = sub_plan_index; implicit_lm = implicit_lm }
    else key

unfoldable pub has_explicit_locality_manager : LocalityKey → Bool
has_explicit_locality_manager key = not key.implicit_lm

pub record LocalityFilter : Type 0 where
  pub node : String
  pub included_instances : List String

unfoldable pub includes_instance : LocalityFilter → String → Bool
unfolding contains_name
includes_instance filter name = contains_name filter.included_instances name

abbrev pub is_nil {ℓ} : {A : Type ℓ} → List A → Bool
is_nil [] = true
is_nil (x ∷ xs) = false

-- The search for an instance of the sub plan that is constrained to another process than `i`.
unfoldable pub has_incompatible : LocalityKey → ℕ → List ℕ → Bool
unfolding has_instance
has_incompatible key i [] = false
has_incompatible key i (ref ∷ refs) =
    if not (ref == i) && has_instance key ref then true else has_incompatible key i refs

-- Whether one constraint keeps instance `i` out of the sub plan: a `return false` of the loop.
unfoldable pub is_violated : LocalityKey → ℕ → PlanLocality → Bool
unfolding contains has_incompatible
is_violated key i ploc =
    let refs = ploc.constrained_instance_ref in
    let apply_constraint = contains refs i in
    elim ploc.constraint [
      | no_constraint ↦ false
      | different_process ↦ if apply_constraint then has_incompatible key i refs else false
      | same_process ↦ elim key.instances [
        | [] ↦ false
        | first_inst_nr ∷ _ ↦
            if apply_constraint
            then not (contains refs first_inst_nr)
            else contains refs first_inst_nr
      ]
    ]

-- The loop over the locality constraints.
unfoldable pub are_met : LocalityKey → ℕ → List PlanLocality → Bool
unfolding is_violated
are_met key i [] = true
are_met key i (ploc ∷ plocs) = if is_violated key i ploc then false else are_met key i plocs

-- `extract` is `>>=` of a text out of an `Any`, `embed` is `<<=`, and `manager_uuid` the UUID that is
-- generated for the name of a sub plan's own locality manager.
module _ {Any : Type 0} (extract : Any → Option String) (embed : String → Any)
    (manager_uuid : DeploymentPlan Any → String) where
  -- The second test looks the instance's node, not its name, up among the included instances.
  unfoldable pub match_instance : DeploymentPlan Any → ℕ → LocalityFilter → Bool
  unfolding includes_instance node_of
  match_instance plan i filter =
      if is_empty filter.node || str_eq filter.node (node_of plan i)
      then is_nil filter.included_instances || includes_instance filter (node_of plan i)
      else false

  unfoldable pub match_sub_plan : DeploymentPlan Any → ℕ → LocalityKey → Bool
  unfolding has_instance are_met node_of
  match_sub_plan plan i key =
      if str_eq key.node (node_of plan i)
      then if has_instance key i then true else are_met key i plan.locality_constraint
      else false

  unfoldable pub is_manager : Implementation Any → Bool
  unfolding get_instance_type
  is_manager impl = str_eq (get_instance_type extract impl.exec_parameter) dance_localitymanager

  -- Marks the instance that was added last, where it is the first locality manager.
  unfoldable pub mark_manager : DeploymentPlan Any → ℕ → LocalityKey → LocalityKey
  unfolding has_locality_manager set_locality_manager is_manager
  mark_manager plan i key =
      if has_locality_manager key then key else elim (get_elem? plan.instances i) [
        | none ↦ key
        | some inst ↦ elim (get_elem? plan.implementation inst.implementation_ref) [
          | none ↦ key
          | some impl ↦
              if is_manager impl
              then set_locality_manager (length key.instances - 1) false key
              else key
        ]
      ]

  -- What `prepare_sub_plan` does to the key.
  unfoldable pub prepare_key : DeploymentPlan Any → ℕ → String → LocalityKey → LocalityKey
  unfolding has_instance add_instance mark_manager node_of
  prepare_key plan i uuid key =
      let named = record key {
        plan_uuid = if is_empty key.plan_uuid then uuid else key.plan_uuid;
        node = if str_eq key.node (node_of plan i) then key.node else node_of plan i;
      } in
      if has_instance named i then named else mark_manager plan i (add_instance i named)

  unfoldable pub prepare_sub_plan :
      DeploymentPlan Any → ℕ → DeploymentPlan Any → LocalityKey → DeploymentPlan Any × LocalityKey
  unfolding prepare_key derived_label
  prepare_sub_plan plan i sub_plan key =
      let key' = prepare_key plan i sub_plan.uuid key in
      (
        record sub_plan {
          label = derived_label plan sub_plan.label " for a Locality on Node " key'.node;
        },
        key',
      )

  -- The minimal default locality manager.
  abbrev pub default_implementation : Implementation Any
  default_implementation = record {
    name = "";
    artifact_ref = [];
    exec_parameter = record { name = impl_type; value = embed dance_localitymanager } ∷ [];
  }

  abbrev pub default_instance : DeploymentPlan Any → Instance Any
  default_instance sub_plan = record {
    name = str_append "Locality Manager [" (str_append (manager_uuid sub_plan) "]");
    node = "";
    implementation_ref = length sub_plan.implementation;
    config_property = [];
  }

  unfoldable pub finalize_sub_plan :
      DeploymentPlan Any → LocalityKey → DeploymentPlan Any × LocalityKey
  unfolding has_locality_manager add_instance set_locality_manager
  finalize_sub_plan sub_plan key =
      if has_locality_manager key
      then (sub_plan, key)
      else let key' = add_instance (length sub_plan.instances) key in
        (
          record sub_plan {
            implementation = sub_plan.implementation ++ default_implementation ∷ [];
            instances = sub_plan.instances ++ default_instance sub_plan ∷ [];
          },
          set_locality_manager (length key'.instances - 1) true key',
        )

  abbrev pub locality_splitter : Splitter Any
  locality_splitter = record {
    Key = LocalityKey;
    Filter = LocalityFilter;
    empty_key = empty_key;
    key_text = λ key. key.plan_uuid;
    match_instance = match_instance;
    match_sub_plan = match_sub_plan;
    prepare_sub_plan = prepare_sub_plan;
    finalize_sub_plan = finalize_sub_plan;
  }
