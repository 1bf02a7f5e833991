-- ===== src/Domain/Managed.antt =====
-- `preparePlan` and `destroyManager` of the execution manager, on the map of its managers.
use dancex.Prelude.{
  ℕ, [], ◌∷◌, ◌++◌, ◌>>=◌, Option, none, some, true, false, String, ◌≡◌, refl, ap, ◌∙◌, All,
  str_eq_refl, Option-cases, ◌≢◌, ◌⊎◌, inl, inr, Ordering, str_compare,
}
use dancex.StringMap.{SMap, find, assign, erase}
use dancex.StringMap.Order.{IsSorted, Below, str_compare-lt-ne}
use dancex.Utility.Exceptions.{plan_error}
use dancex.Split.Plan.{DeploymentPlan}
use dancex.Domain.Requests.{user, Call, Orb}
use dancex.Domain.Replies.{Outcome, done, throws, blocked}
use dancex.Domain.Nodes.{DomainApplicationManager, new_domain_application_manager}
use dancex.NodeLocator.{locate_node}
use dancex.Domain.Manager.{reference_of, kept}
use dancex.Domain.Manager
use dancex.Domain.Execution.{Managed, ExecutionManager, prepare_new, prepare_plan, destroy_in}

module _ {V : Type 0} (k : String) where
  Below-middle :
      (j : String) (before after : SMap V) (v : V)
      → Below j (before ++ (k, v) ∷ after)
      → str_compare j k ≡ Ordering.lt
  Below-middle j [] after v b = b.0
  Below-middle j (e ∷ before) after v b = Below-middle j before after v b.1

  pub find-middle :
      (before after : SMap V) (v u : V)
      → IsSorted (before ++ (k, v) ∷ after)
      → find k (before ++ (k, u) ∷ after) ≡ some u
  unfolding find
  find-middle [] after v u s = rw (str_eq_refl k, find) refl
  find-middle ((j, x) ∷ before) after v u s =
      rw (str_compare-lt-ne j k (Below-middle j before after v s.0), find)
        (find-middle before after v u s.1)

  pub erase-middle :
      (before after : SMap V) (v : V)
      → IsSorted (before ++ (k, v) ∷ after)
      → erase k (before ++ (k, v) ∷ after) ≡ before ++ after
  unfolding erase
  erase-middle [] after v s = rw (str_eq_refl k, erase) refl
  erase-middle ((j, x) ∷ before) after v s =
      rw (str_compare-lt-ne j k (Below-middle j before after v s.0), erase)
        (ap (λ l. (j, x) ∷ l) (erase-middle before after v s.1))

module _ {Any Ref Conn Obj W : Type 0} (orb : Orb (Call Any Ref Conn) Ref Conn W)
    (activate : W → Ref × W) (embed : String → Any) (generate_uuid : String → ℕ → String)
    (plan : DeploymentPlan Any) (s : ExecutionManager Any Ref Obj) (w : W) where
  abbrev Prepared : Type 0
  Prepared = Option (Outcome Unit × DomainApplicationManager Any Ref × W)

  -- What preparing by a new manager of the domain's application gives.
  abbrev pub prepared_by : (String → Option Ref) → Prepared
  prepared_by locate =
      Manager.prepare_plan orb activate embed generate_uuid locate
        (new_domain_application_manager plan) w

  -- The manager is registered where it has prepared the plan; nothing is changed where it has not.
  abbrev pub PrepareEnds :
      Prepared → Option (Outcome (Option Ref) × ExecutionManager Any Ref Obj × W) → Type 0
  PrepareEnds prepared none = prepared ≡ none
  PrepareEnds prepared (some (outcome, t, w')) =
      ((dam : DomainApplicationManager Any Ref) × (v : W) × (prepared ≡ some (done tt, dam, v))
        × (outcome ≡ done (some (activate v).0))
        × (find plan.uuid s.managers ≡ none)
        × (t ≡ record s { managers = assign plan.uuid (some (activate v).0, dam) s.managers }))
      ⊎ (((ref : Ref) → outcome ≢ done (some ref)) × (t ≡ s))

  prepare_new-PrepareEnds :
      (locate : String → Option Ref)
      → find plan.uuid s.managers ≡ none
      → PrepareEnds
          (prepared_by locate)
          (prepare_new orb activate embed generate_uuid locate plan s w)
  unfolding prepare_new
  prepare_new-PrepareEnds locate e = by_result (prepared_by locate)
    where
      by_result :
          (o : Prepared)
          → PrepareEnds o (
              o >>= λ x. some (elim x.0 [
                | done u ↦ (
                  done (some (activate x.2).0),
                  record s { managers = assign plan.uuid (some (activate x.2).0, x.1) s.managers },
                  (activate x.2).1,
                )
                | throws ex ↦ (done none, s, x.2)
                | blocked ↦ (blocked, s, x.2)
              ]))
      by_result none = refl
      by_result (some (done u, dam, v)) = inl (dam, v, refl, refl, e, refl)
      by_result (some (throws ex, dam, v)) = inr ((λ ref h. cc), refl)
      by_result (some (blocked, dam, v)) = inr ((λ ref h. cc), refl)

  -- Where preparePlan of the execution manager is undefined, that of a new domain application
  -- manager is. It gives a reference only where the UUID was not registered and the new manager
  -- has prepared the plan, which is then registered under the UUID with that reference; in all
  -- other cases nothing is changed.
  pub prepare_plan-PrepareEnds :
      (string_to_object : String → Option Obj) (narrow : Option Obj → Option Ref)
      → PrepareEnds
          (prepared_by λ node. locate_node string_to_object narrow node s.locator)
          (prepare_plan orb activate embed generate_uuid string_to_object narrow plan s w)
  unfolding prepare_plan
  prepare_plan-PrepareEnds string_to_object narrow =
      elim (Option-cases (find plan.uuid s.managers)) [
        | inl e ↦
            rw (e, prepare_plan)
              (prepare_new-PrepareEnds (λ node. locate_node string_to_object narrow node s.locator)
                e)
        | inr (dam, e) ↦ rw (e, prepare_plan) (inr ((λ ref h. cc), refl))
      ]

  pub prepare_plan-registered :
      (string_to_object : String → Option Obj) (narrow : Option Obj → Option Ref)
      (entry : Managed Any Ref)
      → find plan.uuid s.managers ≡ some entry
      → prepare_plan orb activate embed generate_uuid string_to_object narrow plan s w
        ≡ some (
          throws (
              user plan_error
                (record { name = plan.uuid; reason = "Plan with same UUID already exists" })),
          s,
          w,
        )
  unfolding prepare_plan
  prepare_plan-registered string_to_object narrow entry e = rw (e, prepare_plan) refl

module _ {Any Ref Conn W : Type 0} (orb : Orb (Call Any Ref Conn) Ref Conn W)
    (activate : W → Ref × W) (manager : Ref) where
  -- The entry of an active manager other than `manager`.
  abbrev pub IsOther : String × Managed Any Ref → Type 0
  IsOther (uuid, (active, dam)) =
      (ref : Ref) × (active ≡ some ref) × (orb.is_equivalent manager ref ≡ false)

  pub destroy_in-others :
      (before rest : SMap (Managed Any Ref)) (w : W)
      → All IsOther before
      → destroy_in orb activate manager (before ++ rest) w ≡ (
          let (found, left, w') = destroy_in orb activate manager rest w in
          (found, before ++ left, w'))
  unfolding destroy_in reference_of
  destroy_in-others [] rest w others = refl
  destroy_in-others ((uuid, (active, dam)) ∷ before) rest w ((ref, e, n), others) =
      rw (e, n, destroy_in-others before rest w others, destroy_in, reference_of) refl

  destroy_in-none :
      (managers : SMap (Managed Any Ref)) (w : W)
      → All IsOther managers
      → destroy_in orb activate manager managers w ≡ (none, managers, w)
  unfolding destroy_in reference_of
  destroy_in-none [] w others = refl
  destroy_in-none ((uuid, (active, dam)) ∷ managers) w ((ref, e, n), others) =
      rw (e, n, destroy_in-none managers w others, destroy_in, reference_of) refl

  pub destroy_in-inactive :
      (uuid : String) (dam : DomainApplicationManager Any Ref) (rest : SMap (Managed Any Ref))
      (w : W)
      → All IsOther rest
      → orb.is_equivalent manager (activate w).0 ≡ false
      → destroy_in orb activate manager ((uuid, (none, dam)) ∷ rest) w
        ≡ (none, (uuid, (some (activate w).0, dam)) ∷ rest, (activate w).1)
  unfolding destroy_in reference_of
  destroy_in-inactive uuid dam rest w others n =
      rw (n, destroy_in-none rest (activate w).1 others, destroy_in) refl

  module _ (before after : SMap (Managed Any Ref)) (uuid : String) (ref : Ref)
      (dam : DomainApplicationManager Any Ref) (w : W) (same : orb.is_equivalent manager ref ≡ true)
      (others : All IsOther before) where
    destroy_in-here : destroy_in orb activate manager ((uuid, (some ref, dam)) ∷ after) w ≡ (
        let (outcome, dam', w') = Manager.destroy_manager orb activate dam w in
        (some outcome, kept outcome (uuid, (none, dam')) ++ after, w'))
    unfolding destroy_in reference_of
    destroy_in-here = rw (same, destroy_in) refl

    pub destroy_in-found :
        destroy_in orb activate manager (before ++ (uuid, (some ref, dam)) ∷ after) w ≡ (
          let (outcome, dam', w') = Manager.destroy_manager orb activate dam w in
          (some outcome, before ++ (kept outcome (uuid, (none, dam')) ++ after), w'))
    destroy_in-found =
        destroy_in-others before ((uuid, (some ref, dam)) ∷ after) w others
        ∙ ap (λ x. (x.0, before ++ x.1, x.2)) destroy_in-here
