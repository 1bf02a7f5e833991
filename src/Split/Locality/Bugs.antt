-- ===== src/Split/Locality/Bugs.antt =====
-- Where the locality splitter does not do what its comments say.
use dancex.Prelude.{
  ℕ, zero, suc, ◌+◌, ◌≤◌, ◌<◌, List, [], ◌∷◌, Option, true, false, String, ◌≡◌, ◌≢◌, refl, arith,
  All, Bool-cases, inl, inr, length, str_eq, ◌==◌,
}
use dancex.Split.Plan.{DeploymentPlan, PlanLocality, same_process}
use dancex.Split.Node.{node_of}
use dancex.Split.Interface.{Splitter}
use dancex.Split.Selection.{matching_from, matching_instances}
use dancex.Split.Locality.{
  LocalityKey, LocalityFilter, contains, are_met, includes_instance, match_instance, match_sub_plan,
  locality_splitter, is_nil,
}

module _ {Any : Type 0} (s : Splitter Any) (embed : String → Any)
    (generate_uuid : String → ℕ → String) (plan : DeploymentPlan Any) where
  contains-matching :
      (i n j : ℕ) (key : s.Key)
      → j ≤ i
      → i < j + n
      → s.match_sub_plan plan i key ≡ true
      → contains (matching_from s embed generate_uuid plan j n key) i ≡ true
  unfolding matching_from contains
  contains-matching i zero j key lo hi m = absurd (omega arith)
  contains-matching i (suc n) j key lo hi m = elim (Bool-cases (j == i)) [
    | inl e ↦ ground arith
    | inr e ↦ ground (arith, contains-matching i n (j + 1) key)
  ]

module _ {Any : Type 0} (extract : Any → Option String) (embed : String → Any)
    (manager_uuid : DeploymentPlan Any → String) (plan : DeploymentPlan Any) where
  -- No constraint names the instance, and none asks for the same process.
  abbrev pub Unnamed : ℕ → List PlanLocality → Type 0
  Unnamed i plocs =
      All
        (λ ploc.
          (contains ploc.constrained_instance_ref i ≡ false) × (ploc.constraint ≢ same_process))
        plocs

  Unnamed-are_met :
      (key : LocalityKey) (i : ℕ) (plocs : List PlanLocality)
      → Unnamed i plocs
      → are_met key i plocs ≡ true
  unfolding are_met
  Unnamed-are_met key i [] u = refl
  Unnamed-are_met key i (ploc ∷ plocs) u = ground (arith, u.0, Unnamed-are_met key i plocs u.1)

  -- An instance that no constraint names is listed for every sub plan of its node, also where the
  -- selection phase put it into another one, unless a constraint asks for the same process.
  pub matching_instances-Unnamed :
      (generate_uuid : String → ℕ → String) (i : ℕ) (key : LocalityKey)
      → i < length plan.instances
      → Unnamed i plan.locality_constraint
      → str_eq key.node (node_of plan i) ≡ true
      → contains
          (matching_instances
            (locality_splitter extract embed manager_uuid)
            embed
            generate_uuid
            plan
            key)
          i
        ≡ true
  unfolding matching_instances match_sub_plan
  matching_instances-Unnamed generate_uuid i key lt u here =
      contains-matching (locality_splitter extract embed manager_uuid) embed generate_uuid plan i
        (length plan.instances) 0 key (omega arith) (omega arith)
        (ground (arith, Unnamed-are_met key i plan.locality_constraint u))

  -- A filter that names instances refuses every instance whose node is not among those names,
  -- whatever the instance's own name.
  match_instance-node :
      (filter : LocalityFilter) (i : ℕ)
      → is_nil filter.included_instances ≡ false
      → includes_instance filter (node_of plan i) ≡ false
      → match_instance extract embed manager_uuid plan i filter ≡ false
  unfolding match_instance
  match_instance-node filter i n h = ground arith
