-- ===== src/Split/Selection.antt =====
-- The selection phase of `Split_Plan::split_plan` (tools/split_plan/split_plan.cpp).
use dancex.Prelude.{
  ℕ, zero, suc, ◌+◌, List, [], ◌∷◌, ◌++◌, Option, none, some, String, if◌then◌else◌, length,
  replicate,
}
use dancex.StringMap.{erase}
use dancex.Split.Plan.{DeploymentPlan, PlanLocality, no_constraint, empty_plan}
use dancex.Split.Interface.{Splitter, SubPlans, register}

abbrev pub default_locality : PlanLocality
default_locality = record { constraint = no_constraint; constrained_instance_ref = [] }

-- `embed` is `<<=` of a text into an `Any`, and `generate_uuid` the UUID generator: of the parent's
-- UUID and the number of sub plans so far.
module _ {Any : Type 0} (s : Splitter Any) (embed : String → Any)
    (generate_uuid : String → ℕ → String) (plan : DeploymentPlan Any) where
  open s use {Key, Filter, empty_key, key_text, match_instance, match_sub_plan, prepare_sub_plan}

  -- The range over `sub_plans_` in `find_sub_plan`: the first entry whose key matches.
  unfoldable pub find_matching : ℕ → SubPlans s → Option (Key × DeploymentPlan Any)
  find_matching i [] = none
  find_matching i ((_, (key, sub_plan)) ∷ plans) =
      if match_sub_plan plan i key then some (key, sub_plan) else find_matching i plans

  -- `find_sub_plan`: the entry that it finds is taken out of the map.
  unfoldable pub find_sub_plan : ℕ → SubPlans s → Option (Key × DeploymentPlan Any × SubPlans s)
  unfolding find_matching erase
  find_sub_plan i plans = elim (find_matching i plans) [
    | none ↦ none
    | some (key, sub_plan) ↦ some (key, sub_plan, erase (key_text key) plans)
  ]

  -- The generic initialization of an additional sub plan.
  unfoldable pub additional_sub_plan : ℕ → DeploymentPlan Any
  additional_sub_plan index = record empty_plan {
    uuid = generate_uuid plan.uuid index;
    info_property =
        plan.info_property
        ++ record { name = "nl.remedy.it.DnCX11.ParentPlan"; value = embed plan.uuid } ∷ [];
    locality_constraint = replicate (length plan.locality_constraint) default_locality;
  }

  unfoldable pub prepare : ℕ → DeploymentPlan Any → Key → SubPlans s → SubPlans s
  unfolding register
  prepare i sub_plan key plans =
      let (sub_plan', key') = prepare_sub_plan plan i sub_plan key in
      register s key' sub_plan' plans

  -- The body of the loop over the instances.
  unfoldable pub select_instance : Filter → ℕ → SubPlans s → SubPlans s
  unfolding find_sub_plan additional_sub_plan prepare
  select_instance filter i plans =
      if match_instance plan i filter
      then elim (find_sub_plan i plans) [
        | none ↦ prepare i (additional_sub_plan (length plans)) empty_key plans
        | some (key, sub_plan, others) ↦ prepare i sub_plan key others
      ]
      else plans

  -- The loop from instance `i` on, with `n` instances left.
  unfoldable pub select_from : Filter → ℕ → ℕ → SubPlans s → SubPlans s
  unfolding select_instance
  select_from filter i zero plans = plans
  select_from filter i (suc n) plans = select_from filter (i + 1) n (select_instance filter i plans)

  unfoldable pub select_phase : Filter → SubPlans s
  unfolding select_from
  select_phase filter = select_from filter 0 (length plan.instances) []

  -- The instances that the copying phase lists for a key: all that match it.
  unfoldable pub matching_from : ℕ → ℕ → Key → List ℕ
  matching_from i zero key = []
  matching_from i (suc n) key =
      let rest = matching_from (i + 1) n key in if match_sub_plan plan i key then i ∷ rest else rest

  unfoldable pub matching_instances : Key → List ℕ
  unfolding matching_from
  matching_instances key = matching_from 0 (length plan.instances) key
