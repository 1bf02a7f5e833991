-- ===== src/Split/Locality/Manager.antt =====
-- `finalize_sub_plan`: every sub plan ends up with a locality manager.
use dancex.Prelude.{
  [], ◌∷◌, ◌++◌, Option, some, Bool, true, false, String, ◌≡◌, refl, arith, Bool-cases, inl, inr,
  length, length-append, get_elem?, get_elem?-append_end, str_eq_refl, ◌∙◌, subst, sym,
}
use dancex.Utility.{impl_type, get_instance_type}
use dancex.Utility.Values.{get_instance_type-first}
use dancex.Split.Plan.{DeploymentPlan, Instance, Implementation}
use dancex.Split.Locality.{
  LocalityKey, has_locality_manager, locality_manager_instance, has_explicit_locality_manager,
  is_manager, finalize_sub_plan, default_implementation, default_instance, dance_localitymanager,
}

module _ {Any : Type 0} (extract : Any → Option String) (embed : String → Any)
    (manager_uuid : DeploymentPlan Any → String) where
  default-type :
      extract (embed dance_localitymanager) ≡ some dance_localitymanager
      → get_instance_type extract (default_implementation extract embed manager_uuid).exec_parameter
        ≡ dance_localitymanager
  default-type e =
      get_instance_type-first extract [] []
        (record { name = impl_type; value = embed dance_localitymanager }) tt
      ∙ ground arith

  default-is_manager :
      extract (embed dance_localitymanager) ≡ some dance_localitymanager
      → is_manager extract embed manager_uuid (default_implementation extract embed manager_uuid)
        ≡ true
  unfolding is_manager
  default-is_manager e = rw (default-type e) (str_eq_refl dance_localitymanager)

  -- What the finalization leads to, by whether the key had a locality manager.
  pub data Managed (sub_plan : DeploymentPlan Any) (key : LocalityKey)
      (sub_plan' : DeploymentPlan Any) (key' : LocalityKey) : Bool → Type 0 where
    kept : sub_plan' ≡ sub_plan → key' ≡ key → Managed sub_plan key sub_plan' key' true
    implicit :
        (inst : Instance Any) (impl : Implementation Any)
        → sub_plan'.instances ≡ sub_plan.instances ++ inst ∷ []
        → get_elem? sub_plan'.implementation inst.implementation_ref ≡ some impl
        → is_manager extract embed manager_uuid impl ≡ true
        → get_elem? key'.instances (locality_manager_instance key')
          ≡ some (length sub_plan.instances)
        → has_explicit_locality_manager key' ≡ false
        → Managed sub_plan key sub_plan' key' false

  -- Where the Any of the manager's type is read back, and the key has no locality manager yet,
  -- the finalized sub plan gets an instance with an implementation of that type as its last ones,
  -- and the key names it as its last instance and as implicit; where it has one, nothing changes.
  -- Afterwards the key has one.
  pub finalize_sub_plan-manager :
      (sub_plan : DeploymentPlan Any) (key : LocalityKey)
      → extract (embed dance_localitymanager) ≡ some dance_localitymanager
      → let (sub_plan', key') = finalize_sub_plan extract embed manager_uuid sub_plan key in
        (has_locality_manager key' ≡ true)
        × Managed sub_plan key sub_plan' key' (has_locality_manager key)
  unfolding finalize_sub_plan locality_manager_instance has_explicit_locality_manager
  finalize_sub_plan-manager sub_plan key e = elim (Bool-cases (has_locality_manager key)) [
    | inl h ↦ rw (h, finalize_sub_plan) (h, kept refl refl)
    | inr h ↦
        let n = length-append key.instances (length sub_plan.instances ∷ []) in
        (
          ground (arith, n),
          subst (Managed sub_plan key _ _) (sym h) (
              implicit (default_instance extract embed manager_uuid sub_plan)
                (default_implementation extract embed manager_uuid) (ground arith)
                (ground (
                  arith,
                  get_elem?-append_end sub_plan.implementation
                      (default_implementation extract embed manager_uuid),
                ))
                (default-is_manager e)
                (ground (arith, n, get_elem?-append_end key.instances (length sub_plan.instances)))
                (ground (arith, n))),
        )
  ]
