-- ===== src/Split/Contents.antt =====
-- What `Split_Plan::split_plan` puts into a sub plan of the node splitter, against a plain filter of
-- the plan's instances.
use mathlib.Core.Option.{some-injective, none-ne-some}
use mathlib.Core.List.{append_assoc}
use dancex.Prelude.{
  ◌>>=◌, ℕ, List, [], ◌∷◌, ◌++◌, some, String, ◌≡◌, refl, arith, length, length-append, get_elem?,
  map, str_eq, Option-cases, Bool-cases, inl, inr, ap, sym, ◌∙◌, All-imp, subst,
}
use dancex.StringMap.Laws.{Values}
use dancex.Split.Plan.{DeploymentPlan, Instance}
use dancex.Split.Interface.{SubPlans}
use dancex.Split.Selection.{matching_instances, matching_from, select_phase, additional_sub_plan}
use dancex.Split.Invariant.{select_phase-Entries}
use dancex.Split.Node
use dancex.Split.Node.{node_splitter, node_of}
use dancex.Split.Ranges.{InRange}
use dancex.Split.Copying.{copy_instances, copy_phase, finalize_phase, split_plan}
use dancex.Split.Total.{split_plan-node}
use dancex.Split.Descriptions.{
  described, instances_on, instance_at, Implemented, copy_instances-described, get_elem?-behind,
}

module _ {Any : Type 0} (plan : DeploymentPlan Any) where
  matching_from-instances :
      (embed : String → Any) (generate_uuid : String → ℕ → String) (node : String)
      (before after : List (Instance Any))
      → plan.instances ≡ before ++ after
      → map
          (instance_at plan)
          (matching_from node_splitter embed generate_uuid plan (length before) (length after) node)
        ≡ instances_on plan node after
  unfolding matching_from Node.match_sub_plan node_of
  matching_from-instances embed generate_uuid node before [] h = refl
  matching_from-instances embed generate_uuid node before (i ∷ after) h =
      let here : get_elem? plan.instances (length before) ≡ some i =
        ap (λ l. get_elem? l (length before)) h ∙ get_elem?-behind before after i in
      let later =
        matching_from-instances embed generate_uuid node (before ++ i ∷ []) after
          (h ∙ sym (append_assoc before (i ∷ []) after)) in
      let moved = length-append before (i ∷ []) in
      let next = rw moved at later in
      elim (Bool-cases (str_eq node i.node)) [ inl e ↦ ground arith | inr e ↦ ground arith ]

module _ {Any : Type 0} (embed : String → Any) (generate_uuid : String → ℕ → String)
    (plan : DeploymentPlan Any) where
  -- The sub plan has the instances of the node, and no other.
  abbrev pub HasNode : String × DeploymentPlan Any → Type 0
  HasNode e = map (described e.1) e.1.instances ≡ instances_on plan e.0 plan.instances

  copy_phase-HasNode :
      (plans r : SubPlans node_splitter)
      → Values (λ e. e.1.instances ≡ []) plans
      → copy_phase node_splitter embed generate_uuid plan plans ≡ some r
      → Values HasNode r
  unfolding copy_phase matching_instances
  copy_phase-HasNode [] r a h = subst (Values HasNode) (some-injective [] r h) tt
  copy_phase-HasNode ((t, (node, sub_plan)) ∷ plans) r a h =
      elim (Option-cases (
        copy_instances plan sub_plan
          (matching_instances node_splitter embed generate_uuid plan node))) [
            | inl e ↦ ground arith
            | inr (p, e) ↦
                elim (Option-cases (copy_phase node_splitter embed generate_uuid plan plans)) [
                  | inl f ↦ ground arith
                  | inr (rest, f) ↦
                      subst (Values HasNode)
                        (some-injective ((t, (node, p)) ∷ rest) r
                          (sym (rw (e, ◌>>=◌) (rw (f, ◌>>=◌))) ∙ h))
                        (
                          copy_instances-described plan _ sub_plan p e
                                (subst (Implemented sub_plan) (sym a.0) tt)
                              ∙ ap
                                  (λ l.
                                    map (described sub_plan) l
                                    ++ map (instance_at plan) (
                                        matching_instances node_splitter embed generate_uuid plan
                                          node))
                                  a.0
                              ∙ matching_from-instances plan embed generate_uuid node []
                                  plan.instances refl,
                          copy_phase-HasNode plans rest a.1 f,
                        )
                ]
          ]

  pub finalize_phase-same :
      (plans : SubPlans node_splitter)
      → finalize_phase node_splitter embed generate_uuid plan plans ≡ plans
  unfolding finalize_phase Node.finalize_sub_plan
  finalize_phase-same [] = refl
  finalize_phase-same (e ∷ plans) = ap (◌∷◌ e) (finalize_phase-same plans)

  select_phase-empty :
      (filter : String)
      → Values
          (λ e. e.1.instances ≡ [])
          (select_phase node_splitter embed generate_uuid plan filter)
  unfolding additional_sub_plan Node.prepare_sub_plan
  select_phase-empty filter =
      All-imp _ (λ e h. h.1)
        (select_phase-Entries node_splitter embed generate_uuid plan (λ k. Unit {0})
          (λ p. p.instances ≡ []) (λ i index. (tt, refl)) (λ i p key m h q. (tt, q)) filter)

  -- For a plan whose references are in range, the node splitter answers sub plans, whatever the
  -- filter, and each has exactly the instances of its node, in the order of the plan, with their
  -- names, nodes and properties, and each with its implementation, of which only the indices of
  -- the artifacts are not compared.
  pub split_plan-HasNode :
      (filter : String)
      → InRange plan
      → (r : SubPlans node_splitter) × (split_plan node_splitter embed generate_uuid plan filter
          ≡ some r)
        × Values HasNode r
  unfolding split_plan
  split_plan-HasNode filter ok =
      let (_, e, _) = split_plan-node embed generate_uuid plan filter ok in
      elim (Option-cases (
        copy_phase node_splitter embed generate_uuid plan
          (select_phase node_splitter embed generate_uuid plan filter))) [
            | inl f ↦ absurd (none-ne-some _ (rw (f, ◌>>=◌) at e))
            | inr (r, f) ↦ (
              finalize_phase node_splitter embed generate_uuid plan r,
              rw (f, ◌>>=◌),
              subst (Values HasNode) (sym (finalize_phase-same r))
                  (copy_phase-HasNode _ r (select_phase-empty filter) f),
            )
          ]
