-- ===== src/Split/Additions.antt =====
-- What the copying of instances (tools/split_plan/split_plan.cpp) adds to a sub plan is in range.
use dancex.Prelude.{
  ◌>>=◌, subst, sym, suc, ◌≤◌, ℕ, ◌+◌, ◌<◌, List, [], ◌∷◌, some, ◌≡◌, refl, arith, length,
  length-append, get_elem?-lt, get_elem?-All, All, All-append, All-imp,
}
use dancex.Split.Plan.{DeploymentPlan, Instance, Implementation, Artifact, PlanLocality}
use dancex.Split.Ranges.{
  InRange, IsSubPlan, LocalityBelow, below_mono, copy_artifacts-total, copy_artifacts-Below,
  copy_connections-below, copy_localities-below,
}
use dancex.Split.Copying.{added, copy_instance, copy_instances}

module _ {Any : Type 0} (plan : DeploymentPlan Any) where
  added-InRange :
      (pos : ℕ) (inst : Instance Any) (impl : Implementation Any) (copies : List Artifact)
      (seq : List ℕ) (localities : List PlanLocality) (sub_plan : DeploymentPlan Any)
      → All (λ a. a < length sub_plan.artifact + length copies) seq
      → All (LocalityBelow (suc (length sub_plan.instances))) localities
      → InRange sub_plan
      → InRange (added plan pos inst impl copies seq localities sub_plan)
  unfolding added
  added-InRange pos inst impl copies seq localities sub_plan b c r =
      let impls = length-append sub_plan.implementation (record impl { artifact_ref = seq } ∷ []) in
      let arts = length-append sub_plan.artifact copies in
      let insts =
        length-append sub_plan.instances
          (record inst { implementation_ref = length sub_plan.implementation } ∷ []) in
      record {
        implementations =
            All-append _ sub_plan.instances _
              (All-imp sub_plan.instances (λ i lt. omega (arith, impls)) r.implementations)
              (omega (arith, impls), tt);
        artifacts =
            All-append _ sub_plan.implementation _
              (All-imp sub_plan.implementation
                (λ m. below_mono _ _ m.artifact_ref (omega (arith, arts))) r.artifacts)
              (below_mono _ _ seq (omega (arith, arts)) b, tt);
        endpoints =
            copy_connections-below _ pos (length sub_plan.instances) plan.connection
              sub_plan.connection (omega (arith, insts))
              (All-imp sub_plan.connection
                (λ c. All-imp c.internal_endpoint (λ e lt. omega (arith, insts))) r.endpoints);
        localities =
            All-imp localities
              (λ l. below_mono _ _ l.constrained_instance_ref (omega (arith, insts))) c;
      }

  -- Instances that the plan has, in a plan in range, are copied, into a sub plan of it.
  copy_instance-IsSubPlan :
      (sub_plan : DeploymentPlan Any) (pos : ℕ)
      → InRange plan
      → pos < length plan.instances
      → IsSubPlan plan sub_plan
      → (p : DeploymentPlan Any) × (copy_instance plan sub_plan pos ≡ some p) × IsSubPlan plan p
  unfolding copy_instance
  copy_instance-IsSubPlan sub_plan pos ok lt r =
      let (inst, e) = get_elem?-lt plan.instances pos lt in
      let ref_ok = get_elem?-All _ plan.instances pos ok.implementations e in
      let (impl, f) = get_elem?-lt plan.implementation inst.implementation_ref ref_ok in
      let refs_ok = get_elem?-All _ plan.implementation inst.implementation_ref ok.artifacts f in
      let next = length sub_plan.artifact in
      let ((copies, seq), g) =
        copy_artifacts-total plan.artifact inst.node impl.artifact_ref next refs_ok in
      let below = rw g at (copy_artifacts-Below plan.artifact inst.node impl.artifact_ref next) in
      let last = length sub_plan.instances in
      let (localities, h, same, kept) =
        copy_localities-below (suc last) pos last plan.locality_constraint
          sub_plan.locality_constraint (omega arith) r.constraints
          (All-imp sub_plan.locality_constraint
            (λ l. below_mono _ _ l.constrained_instance_ref (omega arith)) r.in_range.localities) in
      (
        added plan pos inst impl copies seq localities sub_plan,
        rw (e, ◌>>=◌) (rw (f, ◌>>=◌) (rw (g, ◌>>=◌) (rw (h, ◌>>=◌)))),
        record {
          in_range =
              added-InRange pos inst impl copies seq localities sub_plan below kept r.in_range;
          constraints = subst (λ n. length plan.locality_constraint ≤ n) (sym same) r.constraints;
        },
      )

  pub copy_instances-IsSubPlan :
      (poss : List ℕ) (sub_plan : DeploymentPlan Any)
      → InRange plan
      → All (λ i. i < length plan.instances) poss
      → IsSubPlan plan sub_plan
      → (p : DeploymentPlan Any) × (copy_instances plan sub_plan poss ≡ some p) × IsSubPlan plan p
  unfolding copy_instances
  copy_instances-IsSubPlan [] sub_plan ok lts r = (sub_plan, refl, r)
  copy_instances-IsSubPlan (pos ∷ poss) sub_plan ok lts r =
      let (p, e, r') = copy_instance-IsSubPlan sub_plan pos ok lts.0 r in
      let (q, f, r'') = copy_instances-IsSubPlan poss p ok lts.1 r' in
      (q, rw (e, copy_instances, ◌>>=◌) f, r'')
