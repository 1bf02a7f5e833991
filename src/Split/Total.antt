-- ===== src/Split/Total.antt =====
-- `Split_Plan::split_plan` on a plan in range: no reference is read out of range, and the sub plans
-- are in range too.
use dancex.Prelude.{
  ◌>>=◌, ℕ, zero, suc, ◌+◌, ◌<◌, [], ◌∷◌, Option, some, String, Bool, ◌≡◌, refl, arith, length,
  length-append, All, length-replicate, All-append, All-imp, Bool-cases, inl, inr, replicate,
}
use dancex.StringMap.Laws.{Values}
use dancex.Split.Plan.{DeploymentPlan, Instance, Implementation}
use dancex.Split.Interface.{Splitter, SubPlans}
use dancex.Split.Selection.{
  matching_instances, matching_from, additional_sub_plan, default_locality, select_phase,
}
use dancex.Split.Invariant.{select_phase-Entries}
use dancex.Split.Node
use dancex.Split.Node.{node_splitter}
use dancex.Split.Locality
use dancex.Split.Locality.{LocalityFilter, LocalityKey, locality_splitter}
use dancex.Split.Guarded.{guarded, split_plan-guarded}
use dancex.Split.Ranges.{InRange, IsSubPlan, LocalityBelow, below_mono}
use dancex.Split.Additions.{copy_instances-IsSubPlan}
use dancex.Split.Copying.{copy_phase, finalize_phase, split_plan}

module _ {Any : Type 0} (s : Splitter Any) (embed : String → Any)
    (generate_uuid : String → ℕ → String) (plan : DeploymentPlan Any) where
  matching_from-below :
      (i n : ℕ) (key : s.Key)
      → All (λ j. j < i + n) (matching_from s embed generate_uuid plan i n key)
  unfolding matching_from
  matching_from-below i zero key = tt
  matching_from-below i (suc n) key =
      let later = below_mono _ (i + suc n) _ (omega arith) (matching_from-below (i + 1) n key) in
      elim (Bool-cases (s.match_sub_plan plan i key)) [
        | inl e ↦ rw (e, matching_from) (omega arith, later)
        | inr e ↦ rw (e, matching_from) later
      ]

  -- For a plan in range the phase reads nothing out of range, and all its sub plans are in range.
  pub copy_phase-IsSubPlan :
      (plans : SubPlans s)
      → InRange plan
      → Values (λ e. IsSubPlan plan e.1) plans
      → (r : SubPlans s) × (copy_phase s embed generate_uuid plan plans ≡ some r)
        × Values (λ e. IsSubPlan plan e.1) r
  unfolding copy_phase matching_instances
  copy_phase-IsSubPlan [] ok a = ([], refl, tt)
  copy_phase-IsSubPlan ((t, (key, sub_plan)) ∷ plans) ok a =
      let n = length plan.instances in
      let here = below_mono _ n _ (omega arith) (matching_from-below 0 n key) in
      let (p, e, r) = copy_instances-IsSubPlan plan _ sub_plan ok here a.0 in
      let (rest, f, rs) = copy_phase-IsSubPlan plans ok a.1 in
      ((t, (key, p)) ∷ rest, rw (e, ◌>>=◌) (rw (f, ◌>>=◌)), (r, rs))

  defaults-below : (n m : ℕ) → All (LocalityBelow n) (replicate m default_locality)
  defaults-below n zero = tt
  defaults-below n (suc m) = (tt, defaults-below n m)

  additional_sub_plan-IsSubPlan :
      (index : ℕ) → IsSubPlan plan (additional_sub_plan s embed generate_uuid plan index)
  unfolding additional_sub_plan
  additional_sub_plan-IsSubPlan index =
      let defaults = length-replicate (length plan.locality_constraint) default_locality in
      record {
        in_range = record {
          implementations = tt;
          artifacts = tt;
          endpoints = tt;
          localities = defaults-below 0 (length plan.locality_constraint);
        };
        constraints = omega (arith, defaults);
      }

  module _
      (prepares : (i : ℕ) (sub_plan : DeploymentPlan Any) (key : s.Key)
        → IsSubPlan plan sub_plan
        → IsSubPlan plan (s.prepare_sub_plan plan i sub_plan key).0)
      (finalizes : (sub_plan : DeploymentPlan Any) (key : s.Key)
        → IsSubPlan plan sub_plan
        → IsSubPlan plan (s.finalize_sub_plan sub_plan key).0) where
    finalize_phase-IsSubPlan :
        (plans : SubPlans s)
        → Values (λ e. IsSubPlan plan e.1) plans
        → Values (λ e. IsSubPlan plan e.1) (finalize_phase s embed generate_uuid plan plans)
    unfolding finalize_phase
    finalize_phase-IsSubPlan [] a = tt
    finalize_phase-IsSubPlan ((t, (key, p)) ∷ plans) a =
        (finalizes p key a.0, finalize_phase-IsSubPlan plans a.1)

    select_phase-IsSubPlan :
        (filter : s.Filter)
        → Values (λ e. IsSubPlan plan e.1) (select_phase s embed generate_uuid plan filter)
    select_phase-IsSubPlan filter =
        All-imp _ (λ e h. h.1)
          (select_phase-Entries s embed generate_uuid plan (λ k. Unit {0}) (IsSubPlan plan)
            (λ i index. (tt, prepares i _ s.empty_key (additional_sub_plan-IsSubPlan index)))
            (λ i p key m h q. (tt, prepares i p key q)) filter)

    split_plan-IsSubPlan :
        (filter : s.Filter)
        → InRange plan
        → (r : SubPlans s) × (split_plan s embed generate_uuid plan filter ≡ some r)
          × Values (λ e. IsSubPlan plan e.1) r
    unfolding split_plan
    split_plan-IsSubPlan filter ok =
        let (r, e, a) = copy_phase-IsSubPlan _ ok (select_phase-IsSubPlan filter) in
        (finalize_phase s embed generate_uuid plan r, rw (e, ◌>>=◌), finalize_phase-IsSubPlan r a)

module _ {Any : Type 0} (extract : Any → Option String) (embed : String → Any)
    (manager_uuid : DeploymentPlan Any → String) where
  abbrev default_implementation : Implementation Any
  default_implementation = Locality.default_implementation extract embed manager_uuid

  abbrev default_instance : DeploymentPlan Any → Instance Any
  default_instance = Locality.default_instance extract embed manager_uuid

  finalize-InRange :
      (sub_plan : DeploymentPlan Any) (key : Locality.LocalityKey)
      → InRange sub_plan
      → InRange (Locality.finalize_sub_plan extract embed manager_uuid sub_plan key).0
  unfolding Locality.finalize_sub_plan
  finalize-InRange sub_plan key r =
      let impls = length-append sub_plan.implementation (default_implementation ∷ []) in
      let insts = length-append sub_plan.instances (default_instance sub_plan ∷ []) in
      elim (Bool-cases (Locality.has_locality_manager key)) [
        | inl e ↦ rw (e, Locality.finalize_sub_plan) r
        | inr e ↦
            rw (e, Locality.finalize_sub_plan)
              (record {
                implementations =
                    All-append _ sub_plan.instances _
                      (All-imp sub_plan.instances (λ i lt. omega (arith, impls)) r.implementations)
                      (omega (arith, impls), tt);
                artifacts = All-append _ sub_plan.implementation _ r.artifacts (tt, tt);
                endpoints =
                    All-imp sub_plan.connection
                      (λ c. All-imp c.internal_endpoint (λ e lt. omega (arith, insts))) r.endpoints;
                localities =
                    All-imp sub_plan.locality_constraint
                      (λ l. below_mono _ _ l.constrained_instance_ref (omega (arith, insts)))
                      r.localities;
              })
      ]

  finalize-IsSubPlan :
      (plan sub_plan : DeploymentPlan Any) (key : Locality.LocalityKey)
      → IsSubPlan plan sub_plan
      → IsSubPlan plan (Locality.finalize_sub_plan extract embed manager_uuid sub_plan key).0
  unfolding Locality.finalize_sub_plan
  finalize-IsSubPlan plan sub_plan key r = elim (Bool-cases (Locality.has_locality_manager key)) [
    | inl e ↦ rw (e, Locality.finalize_sub_plan) r
    | inr e ↦ record {
      in_range = finalize-InRange sub_plan key r.in_range;
      constraints = rw (e, Locality.finalize_sub_plan) r.constraints;
    }
  ]

-- A sub plan stays one under another label.
labelled :
    {Any : Type 0} {plan sub_plan : DeploymentPlan Any} {label : String}
    → IsSubPlan plan sub_plan
    → IsSubPlan plan (record sub_plan { label = label })
labelled r = record {
  in_range = record {
    implementations = r.in_range.implementations;
    artifacts = r.in_range.artifacts;
    endpoints = r.in_range.endpoints;
    localities = r.in_range.localities;
  };
  constraints = r.constraints;
}

-- The node splitter ends, with sub plans that are in range.
pub split_plan-node :
    {Any : Type 0} (embed : String → Any) (generate_uuid : String → ℕ → String)
    (plan : DeploymentPlan Any) (filter : String)
    → InRange plan
    → (r : SubPlans node_splitter) × (split_plan node_splitter embed generate_uuid plan filter
        ≡ some r)
      × Values (λ e. IsSubPlan plan e.1) r
unfolding Node.prepare_sub_plan Node.finalize_sub_plan
split_plan-node embed generate_uuid plan filter ok =
    split_plan-IsSubPlan node_splitter embed generate_uuid plan (λ i p key r. labelled r)
      (λ p key r. r) filter ok

-- For a plan whose references are in range, both splitters answer, whatever the filter, so that
-- the copying reads nothing out of range; the answer is the same for a splitter that gives any
-- other answers for an index that no instance has; and every sub plan, added locality managers
-- included, has its references in range and a constraint for each one of the plan.
pub split_plan-total :
    {Any : Type 0} (extract : Any → Option String) (embed : String → Any)
    (manager_uuid : DeploymentPlan Any → String) (generate_uuid : String → ℕ → String)
    (plan : DeploymentPlan Any) (by_node : String) (by_locality : LocalityFilter)
    (of_filter of_key : Bool) (of_node : DeploymentPlan Any × String)
    (of_locality : DeploymentPlan Any × LocalityKey)
    → InRange plan
    → let located = locality_splitter extract embed manager_uuid in
      (((r : SubPlans node_splitter) × (split_plan node_splitter embed generate_uuid plan by_node
            ≡ some r)
          × Values (λ e. IsSubPlan plan e.1) r)
        × (split_plan
              (guarded node_splitter of_filter of_key of_node)
              embed
              generate_uuid
              plan
              by_node
            ≡ split_plan node_splitter embed generate_uuid plan by_node))
      × (((r : SubPlans located) × (split_plan located embed generate_uuid plan by_locality
              ≡ some r)
            × Values (λ e. IsSubPlan plan e.1) r)
          × (split_plan
                (guarded located of_filter of_key of_locality)
                embed
                generate_uuid
                plan
                by_locality
              ≡ split_plan located embed generate_uuid plan by_locality))
unfolding Locality.prepare_sub_plan
split_plan-total extract embed manager_uuid generate_uuid plan by_node by_locality of_filter of_key
      of_node of_locality ok =
    let located = locality_splitter extract embed manager_uuid in
    (
      (
        split_plan-node embed generate_uuid plan by_node ok,
        split_plan-guarded node_splitter embed generate_uuid plan of_filter of_key of_node by_node,
      ),
      (
        split_plan-IsSubPlan located embed generate_uuid plan (λ i p key r. labelled r)
            (finalize-IsSubPlan extract embed manager_uuid plan) by_locality ok,
        split_plan-guarded located embed generate_uuid plan of_filter of_key of_locality
            by_locality,
      ),
    )
