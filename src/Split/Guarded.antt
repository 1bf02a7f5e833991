-- ===== src/Split/Guarded.antt =====
-- `Split_Plan::split_plan` asks its splitter for instances of the plan only: the index that the
-- splitter subscripts `plan.instance ()` with is below the number of instances.
use dancex.Prelude.{
  ℕ, zero, suc, ◌+◌, ◌≤◌, [], ◌∷◌, Bool, true, String, ◌≡◌, refl, arith, length, ltb, if◌then◌else◌,
  Bool-cases, Option-cases, inl, inr,
}
use dancex.Split.Plan.{DeploymentPlan}
use dancex.Split.Interface.{Splitter, SubPlans, register}
use dancex.Split.Selection.{
  matching_instances, matching_from, find_matching, find_sub_plan, additional_sub_plan, prepare,
  select_instance, select_from, select_phase,
}
use dancex.Split.Copying.{copy_phase, finalize_phase, split_plan}

-- The splitter that answers anything at all, `matches`, `prepared`, where the index is out of range.
abbrev pub guarded :
    {Any : Type 0} (s : Splitter Any) → Bool → Bool → DeploymentPlan Any × s.Key → Splitter Any
guarded s of_filter of_key prepared = record s {
  match_instance = λ plan i filter.
      if ltb i (length plan.instances) then s.match_instance plan i filter else of_filter;
  match_sub_plan =
      λ plan i key. if ltb i (length plan.instances) then s.match_sub_plan plan i key else of_key;
  prepare_sub_plan = λ plan i sub_plan key.
      if ltb i (length plan.instances) then s.prepare_sub_plan plan i sub_plan key else prepared;
}

module _ {Any : Type 0} (s : Splitter Any) (embed : String → Any)
    (generate_uuid : String → ℕ → String) (plan : DeploymentPlan Any) (of_filter of_key : Bool)
    (prepared : DeploymentPlan Any × s.Key) where
  abbrev g : Splitter Any
  g = guarded s of_filter of_key prepared

  find_matching-guarded :
      (i : ℕ) (plans : SubPlans s)
      → ltb i (length plan.instances) ≡ true
      → find_matching g embed generate_uuid plan i plans
        ≡ find_matching s embed generate_uuid plan i plans
  unfolding find_matching
  find_matching-guarded i [] lt = refl
  find_matching-guarded i ((t, (key, sub_plan)) ∷ plans) lt =
      rw (lt, find_matching-guarded i plans lt) refl

  find_sub_plan-guarded :
      (i : ℕ) (plans : SubPlans s)
      → ltb i (length plan.instances) ≡ true
      → find_sub_plan g embed generate_uuid plan i plans
        ≡ find_sub_plan s embed generate_uuid plan i plans
  unfolding find_sub_plan
  find_sub_plan-guarded i plans lt =
      let found = find_matching-guarded i plans lt in
      elim (Option-cases (find_matching s embed generate_uuid plan i plans)) [
        | inl e ↦ rw (found, e, find_sub_plan) refl
        | inr (x, e) ↦ rw (found, e, find_sub_plan) refl
      ]

  prepare-guarded :
      (i : ℕ) (sub_plan : DeploymentPlan Any) (key : s.Key) (plans : SubPlans s)
      → ltb i (length plan.instances) ≡ true
      → prepare g embed generate_uuid plan i sub_plan key plans
        ≡ prepare s embed generate_uuid plan i sub_plan key plans
  unfolding prepare register
  prepare-guarded i sub_plan key plans lt = rw lt refl

  additional_sub_plan-guarded :
      (index : ℕ)
      → additional_sub_plan g embed generate_uuid plan index
        ≡ additional_sub_plan s embed generate_uuid plan index
  unfolding additional_sub_plan
  additional_sub_plan-guarded index = refl

  select_instance-guarded :
      (filter : s.Filter) (i : ℕ) (plans : SubPlans s)
      → ltb i (length plan.instances) ≡ true
      → select_instance g embed generate_uuid plan filter i plans
        ≡ select_instance s embed generate_uuid plan filter i plans
  unfolding select_instance
  select_instance-guarded filter i plans lt =
      let found = find_sub_plan-guarded i plans lt in
      elim (Bool-cases (s.match_instance plan i filter)) [
        | inr e ↦ rw (lt, e, select_instance) refl
        | inl e ↦ elim (Option-cases (find_sub_plan s embed generate_uuid plan i plans)) [
          | inl f ↦
              rw (lt, e, found, f, additional_sub_plan-guarded (length plans), select_instance)
                (prepare-guarded i _ s.empty_key plans lt)
          | inr ((key, sub_plan, others), f) ↦
              rw (lt, e, found, f, select_instance) (prepare-guarded i sub_plan key others lt)
        ]
      ]

  select_from-guarded :
      (filter : s.Filter) (i n : ℕ) (plans : SubPlans s)
      → i + n ≤ length plan.instances
      → select_from g embed generate_uuid plan filter i n plans
        ≡ select_from s embed generate_uuid plan filter i n plans
  unfolding select_from
  select_from-guarded filter i zero plans le = refl
  select_from-guarded filter i (suc n) plans le =
      let here = select_instance-guarded filter i plans (ground arith) in
      rw here (select_from-guarded filter (i + 1) n _ (omega arith))

  matching_from-guarded :
      (i n : ℕ) (key : s.Key)
      → i + n ≤ length plan.instances
      → matching_from g embed generate_uuid plan i n key
        ≡ matching_from s embed generate_uuid plan i n key
  unfolding matching_from
  matching_from-guarded i zero key le = refl
  matching_from-guarded i (suc n) key le =
      let lt : ltb i (length plan.instances) ≡ true = ground arith in
      rw (lt, matching_from-guarded (i + 1) n key (omega arith)) refl

  copy_phase-guarded :
      (plans : SubPlans s)
      → copy_phase g embed generate_uuid plan plans ≡ copy_phase s embed generate_uuid plan plans
  unfolding copy_phase matching_instances
  copy_phase-guarded [] = refl
  copy_phase-guarded ((t, (key, sub_plan)) ∷ plans) =
      rw
        (
          matching_from-guarded 0 (length plan.instances) key (omega arith),
          copy_phase-guarded plans,
        )
        refl

  finalize_phase-guarded :
      (plans : SubPlans s)
      → finalize_phase g embed generate_uuid plan plans
        ≡ finalize_phase s embed generate_uuid plan plans
  unfolding finalize_phase
  finalize_phase-guarded [] = refl
  finalize_phase-guarded ((t, (key, sub_plan)) ∷ plans) = rw (finalize_phase-guarded plans) refl

  -- What a splitter answers for an index that is out of range is not read.
  pub split_plan-guarded :
      (filter : s.Filter)
      → split_plan g embed generate_uuid plan filter ≡ split_plan s embed generate_uuid plan filter
  unfolding split_plan select_phase
  split_plan-guarded filter =
      let selected = select_from-guarded filter 0 (length plan.instances) [] (omega arith) in
      elim (Option-cases
        (copy_phase s embed generate_uuid plan (select_phase s embed generate_uuid plan filter))) [
          | inl e ↦ rw (selected, copy_phase-guarded _, e, split_plan) refl
          | inr (plans, e) ↦
              rw (selected, copy_phase-guarded _, e, finalize_phase-guarded plans, split_plan) refl
        ]
