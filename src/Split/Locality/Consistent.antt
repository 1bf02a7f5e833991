-- ===== src/Split/Locality/Consistent.antt =====
-- The selection phase with the locality splitter keeps the locality constraints.
use dancex.Prelude.{
  ℕ, List, [], ◌∷◌, ◌++◌, Option, true, false, String, ◌≡◌, refl, arith, All, All-imp, Bool-cases,
  inl, inr, str_eq, str_eq_iff, sym, subst,
}
use dancex.StringMap.Laws.{Values}
use dancex.Split.Plan.{DeploymentPlan, PlanLocality}
use dancex.Split.Node.{node_of}
use dancex.Split.Selection.{select_phase}
use dancex.Split.Invariant.{select_phase-Entries}
use dancex.Split.Locality.Constraints.{Allows, Allows-add, contains-snoc}
use dancex.Split.Locality.{
  LocalityKey, LocalityFilter, empty_key, contains, has_instance, are_met, mark_manager,
  match_sub_plan, prepare_key, prepare_sub_plan, locality_splitter,
}

-- All instances of the key run on its node, and every constraint allows any two of them to share a
-- process.
pub record IsConsistent {Any : Type 0} (plan : DeploymentPlan Any) (key : LocalityKey)
    : Type 0 where
  pub on_node : (i : ℕ) → has_instance key i ≡ true → node_of plan i ≡ key.node
  pub allowed : All (Allows key.instances) plan.locality_constraint

All-Allows-add :
    (key : LocalityKey) (i : ℕ) (plocs : List PlanLocality)
    → are_met key i plocs ≡ true
    → All (Allows key.instances) plocs
    → All (Allows (key.instances ++ i ∷ [])) plocs
unfolding are_met
All-Allows-add key i [] h a = tt
All-Allows-add key i (ploc ∷ plocs) h a =
    (Allows-add key i ploc (ground arith) a.0, All-Allows-add key i plocs (ground arith) a.1)

All-Allows-one : (i : ℕ) (plocs : List PlanLocality) → All (Allows (i ∷ [])) plocs
unfolding contains
All-Allows-one i [] = tt
All-Allows-one i (ploc ∷ plocs) =
    (λ b c hb hc. (λ d n r. ground arith, λ s. ground arith), All-Allows-one i plocs)

module _ {Any : Type 0} (extract : Any → Option String) (embed : String → Any)
    (manager_uuid : DeploymentPlan Any → String) (plan : DeploymentPlan Any) where
  mark_manager-same :
      (i : ℕ) (key : LocalityKey)
      → ((mark_manager extract embed manager_uuid plan i key).instances ≡ key.instances)
        × ((mark_manager extract embed manager_uuid plan i key).node ≡ key.node)
  unfolding mark_manager
  mark_manager-same i key = (ground arith, ground arith)

  prepare_key-old :
      (i : ℕ) (uuid : String) (key : LocalityKey)
      → str_eq key.node (node_of plan i) ≡ true
      → has_instance key i ≡ true
      → ((prepare_key extract embed manager_uuid plan i uuid key).instances ≡ key.instances)
        × ((prepare_key extract embed manager_uuid plan i uuid key).node ≡ key.node)
  unfolding prepare_key
  prepare_key-old i uuid key m h = (ground arith, ground arith)

  prepare_key-new :
      (i : ℕ) (uuid : String) (key : LocalityKey)
      → has_instance key i ≡ false
      → ((prepare_key extract embed manager_uuid plan i uuid key).instances
          ≡ key.instances ++ i ∷ [])
        × ((prepare_key extract embed manager_uuid plan i uuid key).node ≡ node_of plan i)
  unfolding prepare_key
  prepare_key-new i uuid key h =
      (ground arith, ground (arith, str_eq_iff key.node (node_of plan i)))

  moved :
      (key : LocalityKey) (node : String) (xs : List ℕ)
      → xs ≡ key.instances
      → node ≡ key.node
      → ((j : ℕ) → contains xs j ≡ true → node_of plan j ≡ node)
      → All (Allows xs) plan.locality_constraint
      → IsConsistent plan key
  unfolding has_instance
  moved key node xs e f on ok = record {
    on_node = λ j h. ground (arith, on j);
    allowed = subst (λ ys. All (Allows ys) plan.locality_constraint) e ok;
  }

  prepare_key-IsConsistent :
      (i : ℕ) (uuid : String) (key : LocalityKey)
      → match_sub_plan extract embed manager_uuid plan i key ≡ true
      → IsConsistent plan key
      → IsConsistent plan (prepare_key extract embed manager_uuid plan i uuid key)
  unfolding match_sub_plan
  prepare_key-IsConsistent i uuid key m c = elim (Bool-cases (has_instance key i)) [
    | inl h ↦
        let (same, at) = prepare_key-old i uuid key (ground arith) h in
        moved _ key.node key.instances (sym same) (sym at) c.on_node c.allowed
    | inr h ↦
        let (same, at) = prepare_key-new i uuid key h in
        let here : str_eq key.node (node_of plan i) ≡ true = ground arith in
        moved _ (node_of plan i) (key.instances ++ i ∷ []) (sym same) (sym at)
          (λ j hj. ground (
            arith,
            contains-snoc key.instances i j,
            c.on_node j,
            str_eq_iff key.node (node_of plan i),
          ))
          (All-Allows-add key i plan.locality_constraint (ground arith) c.allowed)
  ]

  new_key-IsConsistent :
      (i : ℕ) (uuid : String)
      → IsConsistent plan (prepare_key extract embed manager_uuid plan i uuid empty_key)
  unfolding has_instance
  new_key-IsConsistent i uuid =
      let (same, at) = prepare_key-new i uuid empty_key refl in
      moved _ (node_of plan i) (i ∷ []) (sym same) (sym at)
        (λ j hj. ground (arith, contains-snoc [] i j)) (All-Allows-one i plan.locality_constraint)

-- After the selection phase, for any filter: the instances of a sub plan's key run on its node,
-- no two different ones stand in one constraint to different processes, and a constraint to the
-- same process names all of them or none.
pub select_phase-IsConsistent :
    {Any : Type 0} (extract : Any → Option String) (embed : String → Any)
    (manager_uuid : DeploymentPlan Any → String) (generate_uuid : String → ℕ → String)
    (plan : DeploymentPlan Any) (filter : LocalityFilter)
    → Values
        (λ e. IsConsistent plan e.0)
        (select_phase
          (locality_splitter extract embed manager_uuid)
          embed
          generate_uuid
          plan
          filter)
unfolding prepare_sub_plan
select_phase-IsConsistent extract embed manager_uuid generate_uuid plan filter =
    All-imp _ (λ e h. h.0)
      (select_phase-Entries (locality_splitter extract embed manager_uuid) embed generate_uuid plan
        (IsConsistent plan) (λ p. Unit {0})
        (λ i index. (new_key-IsConsistent extract embed manager_uuid plan i _, tt))
        (λ i p key m h q.
          (prepare_key-IsConsistent extract embed manager_uuid plan i _ key m h, tt))
        filter)
