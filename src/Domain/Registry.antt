-- ===== src/Domain/Registry.antt =====
-- `destroyManager` of the execution manager, on a manager that is registered.
use dancex.Prelude.{
  ℕ, ◌∷◌, ◌++◌, Option, none, some, true, false, String, ◌≡◌, ap, ◌∙◌, sym, All, str_eq_refl,
  if◌then◌else◌,
}
use dancex.StringMap.{SMap, find, erase}
use dancex.StringMap.Order.{IsSorted, find-erase}
use dancex.NodeLocator.{NodeLocator}
use dancex.Utility.Exceptions.{plan_error}
use dancex.Split.Plan.{DeploymentPlan}
use dancex.Domain.Requests.{Fault, user, invalid_reference, Call, Orb}
use dancex.Domain.Replies.{Outcome, done, throws}
use dancex.Domain.Nodes.{DomainApplicationManager}
use dancex.Domain.Manager.{kept}
use dancex.Domain.Manager
use dancex.Domain.Execution.{Managed, ExecutionManager, prepare_plan, destroy_manager}
use dancex.Domain.Managed.{
  IsOther, destroy_in-found, destroy_in-others, destroy_in-inactive, find-middle, erase-middle,
  prepare_plan-registered,
}

-- The execution manager with a locator and a map.
abbrev pub with_map :
    {Any Ref Obj : Type 0} → NodeLocator Obj → SMap (Managed Any Ref) → ExecutionManager Any Ref Obj
with_map locator managers = record { managers = managers; locator = locator }

module _ {Any Ref Conn Obj W : Type 0} (orb : Orb (Call Any Ref Conn) Ref Conn W)
    (activate : W → Ref × W) (manager : Ref) (locator : NodeLocator Obj) where
  abbrev finished :
      Option (Outcome Unit) × SMap (Managed Any Ref) × W
      → Outcome Unit × ExecutionManager Any Ref Obj × W
  finished (found, managers, w) = (
    elim found [ none ↦ throws invalid_reference | some outcome ↦ outcome ],
    with_map locator managers,
    w,
  )

  module _ (before after : SMap (Managed Any Ref)) (uuid : String) (ref : Ref)
      (dam : DomainApplicationManager Any Ref) (w : W) (same : orb.is_equivalent manager ref ≡ true)
      (others : All (IsOther orb activate manager) before)
      (sorted : IsSorted (before ++ (uuid, (some ref, dam)) ∷ after)) where
    destroy_manager-found :
        destroy_manager orb activate manager
          (with_map locator (before ++ (uuid, (some ref, dam)) ∷ after))
          w
        ≡ (let (outcome, dam', w') = Manager.destroy_manager orb activate dam w in
            (
              outcome,
              with_map locator (before ++ (kept outcome (uuid, (none, dam')) ++ after)),
              w',
            ))
    unfolding destroy_manager
    destroy_manager-found =
        ap finished (destroy_in-found orb activate manager before after uuid ref dam w same others)

    -- For a manager that is registered in a map in key order, where those before it are active
    -- and not equivalent to the one asked for, and its destroyManager ends without an exception,
    -- destroyManager of the execution manager does too, and erases its UUID, which is then not
    -- registered any more.
    pub destroy_manager-erase :
        (dam' : DomainApplicationManager Any Ref) (w' : W)
        → Manager.destroy_manager orb activate dam w ≡ (done tt, dam', w')
        → (let (outcome, t, v) =
              destroy_manager orb activate manager
                (with_map locator (before ++ (uuid, (some ref, dam)) ∷ after))
                w in
            (outcome ≡ done tt)
            × (t.managers ≡ erase uuid (before ++ (uuid, (some ref, dam)) ∷ after))
            × (find uuid t.managers ≡ none))
    destroy_manager-erase dam' w' well =
        let found =
          destroy_manager-found
          ∙ ap
              (λ x.
                (x.0, with_map locator (before ++ (kept x.0 (uuid, (none, x.1)) ++ after)), x.2))
              well in
        let erased = sym (erase-middle uuid before after (some ref, dam) sorted) in
        (
          ap (λ x. x.0) found,
          ap (λ x. x.1.managers) found ∙ erased,
          ap (λ x. find uuid x.1.managers) found
              ∙ ap (find uuid) erased
              ∙ find-erase uuid uuid (before ++ (uuid, (some ref, dam)) ∷ after) sorted
              ∙ ap (λ b. if b then none else find uuid (before ++ (uuid, (some ref, dam)) ∷ after))
                  (str_eq_refl uuid),
        )

    destroy_manager-again :
        (dam' : DomainApplicationManager Any Ref) (v : W)
        → All (IsOther orb activate manager) after
        → orb.is_equivalent manager (activate v).0 ≡ false
        → (destroy_manager orb activate manager
            (with_map locator (before ++ (uuid, (none, dam')) ∷ after))
            v).0
          ≡ throws invalid_reference
    unfolding destroy_manager
    destroy_manager-again dam' v later fresh =
        ap (λ x. (finished x).0)
          (destroy_in-others orb activate manager before ((uuid, (none, dam')) ∷ after) v others
            ∙ ap (λ x. (x.0, before ++ x.1, x.2))
                (destroy_in-inactive orb activate manager uuid dam' after v later fresh))

    -- For a manager that is registered in a map in key order, the others being active and none
    -- that is asked for equivalent to it: where its destroyManager throws, and new references are
    -- not equivalent to it, destroyManager of the execution manager throws the same, a second
    -- call for the same reference throws an InvalidReference, and preparePlan of a plan with its
    -- UUID throws a PlanError.
    pub destroy_manager-failed :
        (dam' : DomainApplicationManager Any Ref) (w' : W) (ex : Fault) (embed : String → Any)
        (generate_uuid : String → ℕ → String) (string_to_object : String → Option Obj)
        (narrow : Option Obj → Option Ref) (plan : DeploymentPlan Any) (u : W)
        → Manager.destroy_manager orb activate dam w ≡ (throws ex, dam', w')
        → All (IsOther orb activate manager) after
        → ((v : W) → orb.is_equivalent manager (activate v).0 ≡ false)
        → plan.uuid ≡ uuid
        → (let (outcome, t, v) =
              destroy_manager orb activate manager
                (with_map locator (before ++ (uuid, (some ref, dam)) ∷ after))
                w in
            (outcome ≡ throws ex)
            × ((destroy_manager orb activate manager t v).0 ≡ throws invalid_reference)
            × (prepare_plan orb activate embed generate_uuid string_to_object narrow plan t u
                ≡ some (
                  throws (
                      user plan_error (record {
                        name = plan.uuid;
                        reason = "Plan with same UUID already exists";
                      })),
                  t,
                  u,
                )))
    destroy_manager-failed dam' w' ex embed generate_uuid string_to_object narrow plan u ill later
          fresh e =
        let found =
          destroy_manager-found
          ∙ ap
              (λ x.
                (x.0, with_map locator (before ++ (kept x.0 (uuid, (none, x.1)) ++ after)), x.2))
              ill in
        (
          ap (λ x. x.0) found,
          ap (λ x. (destroy_manager orb activate manager x.1 x.2).0) found
              ∙ destroy_manager-again dam' w' later (fresh w'),
          prepare_plan-registered orb activate embed generate_uuid plan _ u string_to_object narrow
              (none, dam')
              (ap (λ x. find plan.uuid x.1.managers) found
                ∙ ap (λ k. find k (before ++ (uuid, (none, dam')) ∷ after)) e
                ∙ find-middle uuid before after (some ref, dam) (none, dam') sorted),
        )
