-- ===== src/Split/Tests.antt =====
-- The theorems of the plan splitting at a plan with two instances on one node.
use dancex.Prelude.{ℕ, zero, suc, [], ◌∷◌, Option, some, true, false, String, ◌≡◌, refl, arith}
use dancex.StringMap.Laws.{Values}
use dancex.Split.Plan.{DeploymentPlan, different_process, simplex_receptacle, facet}
use dancex.Split.Interface.{Splitter, SubPlans}
use dancex.Split.Selection.{select_phase, matching_instances}
use dancex.Split.Copying.{split_plan}
use dancex.Split.Guarded.{guarded}
use dancex.Split.Ranges.{InRange, IsSubPlan}
use dancex.Split.Total.{split_plan-total}
use dancex.Split.Node.{node_splitter, node_of}
use dancex.Split.Contents.{HasNode, split_plan-HasNode}
use dancex.Split.Selected.{split_plan-selected}
use dancex.Split.Node
use dancex.StringMap.{find}
use dancex.Utility.{is_absent}
use dancex.Split.Locality
use dancex.Split.Locality.{
  LocalityKey, LocalityFilter, empty_key, contains, has_locality_manager, locality_manager_instance,
  has_explicit_locality_manager, is_manager, locality_splitter, contains_name, includes_instance,
}
use dancex.Split.Locality.Consistent.{IsConsistent, select_phase-IsConsistent}
use dancex.Split.Locality.Manager.{Managed, finalize_sub_plan-manager}
use dancex.Split.Locality.Bugs.{matching_instances-Unnamed}

abbrev text_of : String → Option String
text_of s = some s

abbrev same : String → String
same s = s

abbrev uuid_of : DeploymentPlan String → String
uuid_of plan = plan.uuid

abbrev numbered : String → ℕ → String
numbered uuid zero = uuid
numbered uuid (suc n) = "next"

abbrev plan : DeploymentPlan String
plan = record {
  label = "demo";
  uuid = "u";
  implementation = record { name = "impl"; artifact_ref = 0 ∷ []; exec_parameter = [] } ∷ [];
  instances =
      record { name = "sender"; node = "n"; implementation_ref = 0; config_property = [] }
      ∷ record { name = "receiver"; node = "n"; implementation_ref = 0; config_property = [] }
      ∷ [];
  connection =
      record {
        name = "link";
        internal_endpoint =
            record {
              port_name = "out";
              kind = simplex_receptacle;
              provider = false;
              instance_ref = 0;
            }
            ∷ record { port_name = "in"; kind = facet; provider = true; instance_ref = 1 }
            ∷ [];
        external_endpoint = [];
        external_reference = [];
      }
      ∷ [];
  artifact = record { name = "lib"; node = "n" } ∷ [];
  info_property = [];
  locality_constraint =
      record { constraint = different_process; constrained_instance_ref = 0 ∷ 1 ∷ [] } ∷ [];
}

abbrev by_locality : Splitter String
by_locality = locality_splitter text_of same uuid_of

abbrev all_nodes : LocalityFilter
all_nodes = record { node = ""; included_instances = [] }

plan-InRange : InRange plan
plan-InRange = record {
  implementations = (omega arith, (omega arith, tt));
  artifacts = ((omega arith, tt), tt);
  endpoints = ((omega arith, (omega arith, tt)), tt);
  localities = ((omega arith, (omega arith, tt)), tt);
}

split_plan-total_example :
    (((r : SubPlans node_splitter) × (split_plan node_splitter same numbered plan "" ≡ some r)
        × Values (λ e. IsSubPlan plan e.1) r)
      × (split_plan (guarded node_splitter true true (plan, "m")) same numbered plan ""
          ≡ split_plan node_splitter same numbered plan ""))
    × (((r : SubPlans by_locality) × (split_plan by_locality same numbered plan all_nodes ≡ some r)
          × Values (λ e. IsSubPlan plan e.1) r)
        × (split_plan (guarded by_locality true true (plan, empty_key)) same numbered plan all_nodes
            ≡ split_plan by_locality same numbered plan all_nodes))
split_plan-total_example =
    split_plan-total text_of same uuid_of numbered plan "" all_nodes true true (plan, "m")
      (plan, empty_key) plan-InRange

split_plan-HasNode_example :
    (r : SubPlans node_splitter) × (split_plan node_splitter same numbered plan "n" ≡ some r)
    × Values (HasNode same numbered plan) r
split_plan-HasNode_example = split_plan-HasNode same numbered plan "n" plan-InRange

split_plan-selected_example :
    (r : SubPlans node_splitter) × (split_plan node_splitter same numbered plan "n" ≡ some r)
    × (is_absent (find (node_of plan 1) r) ≡ false)
unfolding node_of Node.match_instance
split_plan-selected_example =
    split_plan-selected same numbered plan "n" 1 plan-InRange (omega arith) refl

select_phase-IsConsistent_example :
    Values
      (λ e. IsConsistent plan e.0)
      (select_phase (locality_splitter text_of same uuid_of) same numbered plan all_nodes)
select_phase-IsConsistent_example =
    select_phase-IsConsistent text_of same uuid_of numbered plan all_nodes

finalize_sub_plan-manager_example :
    let (sub_plan', key') = Locality.finalize_sub_plan text_of same uuid_of plan empty_key in
    (has_locality_manager key' ≡ true)
    × Managed text_of same uuid_of plan empty_key sub_plan' key' (has_locality_manager empty_key)
finalize_sub_plan-manager_example =
    finalize_sub_plan-manager text_of same uuid_of plan empty_key refl

-- The same plan without its constraint.
abbrev free_plan : DeploymentPlan String
free_plan = record plan { locality_constraint = [] }

abbrev other_key : LocalityKey
other_key = record empty_key { plan_uuid = "v"; node = "n" }

matching_instances-Unnamed_example :
    contains
      (matching_instances
        (locality_splitter text_of same uuid_of)
        same
        numbered
        free_plan
        other_key)
      1
    ≡ true
unfolding node_of
matching_instances-Unnamed_example =
    matching_instances-Unnamed text_of same uuid_of free_plan numbered 1 other_key (omega arith) tt
      refl
