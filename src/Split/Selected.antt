-- ===== src/Split/Selected.antt =====
-- The node splitter has a sub plan for the node of each instance that the filter lets through.
use mathlib.Core.Option.{some-injective, none-ne-some}
use dancex.Prelude.{
  ◌>>=◌, ℕ, zero, suc, ◌+◌, ◌≤◌, ◌<◌, [], ◌∷◌, some, true, false, String, ◌≡◌, refl, arith, length,
  str_eq, str_eq_iff, Option-cases, Bool-cases, inl, inr, ap, sym, ◌∙◌, subst, ◌⊎◌, ◌==◌, ==_iff,
}
use dancex.StringMap.{SMap, find, erase}
use dancex.StringMap.Laws.{find-assign}
use dancex.Utility.{is_absent}
use dancex.Split.Plan.{DeploymentPlan}
use dancex.Split.Interface.{SubPlans, register}
use dancex.Split.Selection.{
  find_matching, find_sub_plan, prepare, select_instance, select_from, select_phase,
  matching_instances,
}
use dancex.Split.Node
use dancex.Split.Node.{node_splitter, node_of}
use dancex.Split.Ranges.{InRange}
use dancex.Split.Copying.{copy_instances, copy_phase, split_plan}
use dancex.Split.Contents.{finalize_phase-same}
use dancex.Split.Total.{split_plan-node}

abbrev Present {ℓ} : {V : Type ℓ} → String → SMap V → Type 0
Present t m = is_absent (find t m) ≡ false

find-erase_other {ℓ} :
    {V : Type ℓ} (t k : String) (m : SMap V) → str_eq k t ≡ false → find t (erase k m) ≡ find t m
unfolding find erase
find-erase_other t k [] h = refl
find-erase_other t k ((j, v) ∷ m) h = elim (Bool-cases (str_eq j k)) [
  | inl e ↦ ground (arith, str_eq_iff j k)
  | inr e ↦ rw (e, erase) (ground (arith, find-erase_other t k m h))
]

module _ {Any : Type 0} (embed : String → Any) (generate_uuid : String → ℕ → String)
    (plan : DeploymentPlan Any) where
  register-Present :
      (t key : String) (sub_plan : DeploymentPlan Any) (plans : SubPlans node_splitter)
      → Present t plans ⊎ (str_eq key t ≡ true)
      → Present t (register node_splitter key sub_plan plans)
  unfolding register
  register-Present t key sub_plan plans h = elim (Option-cases (find key plans)) [
    | inl e ↦ rw (e, register) (ground (arith, find-assign key t (key, sub_plan) plans))
    | inr ((old, p), e) ↦ rw (e, register) (ground (arith, find-assign key t (old, sub_plan) plans))
  ]

  find_matching-node :
      (i : ℕ) (plans : SubPlans node_splitter) {key : String} {sub_plan : DeploymentPlan Any}
      → find_matching node_splitter embed generate_uuid plan i plans ≡ some (key, sub_plan)
      → key ≡ node_of plan i
  unfolding find_matching Node.match_sub_plan
  find_matching-node i [] h = ground arith
  find_matching-node i ((t, (k, p)) ∷ plans) {key} {sub_plan} h =
      elim (Bool-cases (str_eq k (node_of plan i))) [
        | inl e ↦
            sym (ap (λ x. x.0) (some-injective (k, p) (key, sub_plan) (rw (e, find_matching) at h)))
            ∙ (str_eq_iff k (node_of plan i)).0 e
        | inr e ↦ find_matching-node i plans (rw (e, find_matching) at h)
      ]

  prepare-Present :
      (t key : String) (i : ℕ) (sub_plan : DeploymentPlan Any) (plans : SubPlans node_splitter)
      → Present t plans ⊎ (str_eq (node_of plan i) t ≡ true)
      → Present t (prepare node_splitter embed generate_uuid plan i sub_plan key plans)
  unfolding prepare Node.prepare_sub_plan
  prepare-Present t key i sub_plan plans h = elim (Bool-cases (str_eq key (node_of plan i))) [
    | inl e ↦ rw e (
        register-Present t key _ plans (
          subst (λ k. Present t plans ⊎ (str_eq k t ≡ true))
            (sym ((str_eq_iff key (node_of plan i)).0 e)) h))
    | inr e ↦ rw e (register-Present t (node_of plan i) _ plans h)
  ]

  select_instance-Present :
      (t filter : String) (i : ℕ) (plans : SubPlans node_splitter)
      → Present t plans ⊎ ((Node.match_instance plan i filter ≡ true) × (node_of plan i ≡ t))
      → Present t (select_instance node_splitter embed generate_uuid plan filter i plans)
  unfolding select_instance find_sub_plan
  select_instance-Present t filter i plans h =
      elim (Bool-cases (Node.match_instance plan i filter)) [
        | inr e ↦ rw (e, select_instance) (ground arith)
        | inl e ↦
            elim (Option-cases (find_matching node_splitter embed generate_uuid plan i plans)) [
              | inl f ↦ rw (e, f, select_instance) (prepare-Present t "" i _ plans (named h))
              | inr ((key, sub_plan), f) ↦
                  rw (e, f, select_instance)
                    (prepare-Present t key i sub_plan (erase key plans)
                      (others key (find_matching-node i plans f)))
            ]
      ]
    where
      named :
          Present t plans ⊎ ((Node.match_instance plan i filter ≡ true) × (node_of plan i ≡ t))
          → Present t plans ⊎ (str_eq (node_of plan i) t ≡ true)
      named (inl p) = inl p
      named (inr q) = inr ((str_eq_iff (node_of plan i) t).1 q.1)

      others :
          (key : String)
          → key ≡ node_of plan i
          → Present t (erase key plans) ⊎ (str_eq (node_of plan i) t ≡ true)
      others key same = elim (Bool-cases (str_eq (node_of plan i) t)) [
        | inl e ↦ inr e
        | inr e ↦ inl (
            ground (
              arith,
              h,
              str_eq_iff (node_of plan i) t,
              find-erase_other t key plans (subst (λ k. str_eq k t ≡ false) (sym same) e),
            ))
      ]

  select_from-Present :
      (t filter : String) (i n : ℕ) (plans : SubPlans node_splitter)
      → Present t plans
      → Present t (select_from node_splitter embed generate_uuid plan filter i n plans)
  unfolding select_from
  select_from-Present t filter i zero plans h = h
  select_from-Present t filter i (suc n) plans h =
      select_from-Present t filter (i + 1) n _ (select_instance-Present t filter i plans (inl h))

  select_from-selected :
      (filter : String) (i n j : ℕ) (plans : SubPlans node_splitter)
      → i ≤ j
      → j < i + n
      → Node.match_instance plan j filter ≡ true
      → Present
          (node_of plan j)
          (select_from node_splitter embed generate_uuid plan filter i n plans)
  unfolding select_from
  select_from-selected filter i zero j plans lo hi m = absurd (omega arith)
  select_from-selected filter i (suc n) j plans lo hi m = elim (Bool-cases (i == j)) [
    | inl e ↦
        let same : i ≡ j = (==_iff i j).0 e in
        select_from-Present (node_of plan j) filter (i + 1) n _ (
          select_instance-Present (node_of plan j) filter i plans (
            inr (
              subst (λ k. Node.match_instance plan k filter ≡ true) (sym same) m,
              ap (node_of plan) same,
            )))
    | inr e ↦ select_from-selected filter (i + 1) n j _ (ground (arith, ==_iff i j)) (omega arith) m
  ]

  copy_phase-Present :
      (t : String) (plans r : SubPlans node_splitter)
      → copy_phase node_splitter embed generate_uuid plan plans ≡ some r
      → Present t plans
      → Present t r
  unfolding copy_phase find
  copy_phase-Present t [] r h p = ground arith
  copy_phase-Present t ((s, (node, sub_plan)) ∷ plans) r h p =
      elim (Option-cases (
        copy_instances plan sub_plan
          (matching_instances node_splitter embed generate_uuid plan node))) [
            | inl e ↦ ground arith
            | inr (q, e) ↦
                elim (Option-cases (copy_phase node_splitter embed generate_uuid plan plans)) [
                  | inl f ↦ ground arith
                  | inr (rest, f) ↦
                      subst (Present t)
                        (some-injective ((s, (node, q)) ∷ rest) r
                          (sym (rw (e, ◌>>=◌) (rw (f, ◌>>=◌))) ∙ h))
                        (ground (arith, copy_phase-Present t plans rest f))
                ]
          ]

  -- For a plan whose references are in range, the node splitter answers sub plans of which one is
  -- for the node of each instance that the filter lets through.
  pub split_plan-selected :
      (filter : String) (j : ℕ)
      → InRange plan
      → j < length plan.instances
      → Node.match_instance plan j filter ≡ true
      → (r : SubPlans node_splitter) × (split_plan node_splitter embed generate_uuid plan filter
          ≡ some r)
        × (is_absent (find (node_of plan j) r) ≡ false)
  unfolding split_plan select_phase
  split_plan-selected filter j ok lt m =
      let (_, e, _) = split_plan-node embed generate_uuid plan filter ok in
      elim (Option-cases (
        copy_phase node_splitter embed generate_uuid plan
          (select_phase node_splitter embed generate_uuid plan filter))) [
            | inl f ↦ absurd (none-ne-some _ (rw (f, ◌>>=◌) at e))
            | inr (r, f) ↦ (
              r,
              rw (f, ◌>>=◌) (ap some (finalize_phase-same embed generate_uuid plan r)),
              copy_phase-Present (node_of plan j) _ r f (
                  select_from-selected filter 0 (length plan.instances) j [] (omega arith)
                    (omega arith) m),
            )
          ]
