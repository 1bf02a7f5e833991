-- ===== src/Domain/Owned.antt =====
-- A domain application manager that has prepared its plan destroys what it prepared.
use mathlib.Core.Bool.{true≢false}
use mathlib.Core.Option.{some-injective}
use mathlib.Core.List.{Perm, cons≢nil}
use mathlib.Core.List.Perm
use dancex.Prelude.{
  ℕ, List, [], ◌∷◌, ◌++◌, Option, none, some, true, String, ◌≡◌, refl, ap, ◌∙◌, sym, subst, ◌<◌,
  map, if◌then◌else◌, length, concat_map, map-map, Bool-cases, Option-cases, inl, inr,
}
use dancex.Utility.Exceptions.{start_error}
use dancex.Split.Plan.{DeploymentPlan}
use dancex.Split.Interface.{SubPlans}
use dancex.Split.Node.{node_splitter}
use dancex.Split.Copying.{split_plan}
use dancex.Events.Counter.{u32_mod}
use dancex.Domain.Requests.{Call, answered, raised, Orb}
use dancex.Domain.Completes.{refusals_of, replies_of, Replies}
use dancex.Domain.Replies.{Outcome, done}
use dancex.Domain.Reports.{plain}
use dancex.Domain.Nodes.{
  DomainApplicationManager, new_domain_application_manager, plan_requests, manager_requests,
}
use dancex.Domain.Manager.{prepare_plan}
use dancex.Domain.Matched.{ended_well, done-no_errors, append-nothing, map-nothing}
use dancex.Domain.Prepared.{
  Reply, manager_of, error_of, refused_plan, with_managers, Prepares, plan_requests-first_missing,
  prepare_plan-PlanEnds,
}

module _ {Any Ref Conn W : Type 0} (orb : Orb (Call Any Ref Conn) Ref Conn W) where
  -- Where no reply is an error, there is a manager of each node.
  manager_of-handled :
      (replies : List (Reply orb))
      → concat_map (error_of orb) replies ≡ []
      → map (λ a. a.1) (concat_map (manager_of orb) replies) ≡ map (λ a. a.0.handled) replies
  manager_of-handled [] e = refl
  manager_of-handled ((request, raised ex) ∷ replies) e = absurd (cons≢nil e)
  manager_of-handled ((request, answered am provided) ∷ replies) e =
      elim (Bool-cases (orb.is_nil am)) [
        | inl n ↦ absurd (
            cons≢nil (
              subst (λ b. (if b then "" ∷ [] else []) ++ concat_map (error_of orb) replies ≡ []) n
                e))
        | inr n ↦ rw n (
            ap (λ l. request.handled ∷ l)
              (manager_of-handled replies (
                subst (λ b. (if b then "" ∷ [] else []) ++ concat_map (error_of orb) replies ≡ []) n
                  e)))
      ]

  -- Where no manager is missing, there is a request for each sub plan.
  plan_requests-located :
      (locate_node : String → Option Ref) (plans : SubPlans (node_splitter {Any = Any}))
      → (plan_requests orb locate_node plans).0 ≡ none
      → map (λ r. some r.handled) (plan_requests orb locate_node plans).1
        ≡ map (λ e. locate_node e.1.0) plans
  unfolding plan_requests
  plan_requests-located locate_node [] e = refl
  plan_requests-located locate_node ((text, (key, sub_plan)) ∷ plans) e =
      elim (Option-cases (locate_node key)) [
        | inl h ↦ let missing = rw (h, plan_requests) at e in cc
        | inr (nm, h) ↦
            rw (h, plan_requests)
              (ap (λ l. some nm ∷ l)
                (plan_requests-located locate_node plans (rw (h, plan_requests) at e)))
      ]

  target-manager_requests :
      (s : DomainApplicationManager Any Ref)
      → map (λ r. some r.target) (manager_requests orb s) ≡ map some (map (λ a. a.1) s.sub_app_mgr)
  unfolding manager_requests
  target-manager_requests s =
      map-map _ (λ r. some r.target) s.sub_app_mgr ∙ sym (map-map (λ a. a.1) some s.sub_app_mgr)

  Prepares-located :
      (locate_node : String → Option Ref) (plans : SubPlans (node_splitter {Any = Any}))
      (plan : DeploymentPlan Any) (w : W) (ended : Outcome Unit × DomainApplicationManager Any Ref)
      → (plan_requests orb locate_node plans).0 ≡ none
      → Prepares orb
          (plan_requests orb locate_node plans).1
          w
          (new_domain_application_manager plan)
          ended
      → ended.0 ≡ done tt
      → Perm
          (map (λ r. some r.target) (manager_requests orb ended.1))
          (map (λ e. locate_node e.1.0) plans)
  Prepares-located locate_node plans plan w ended m p d =
      let requests = (plan_requests orb locate_node plans).1 in
      let refusals = refusals_of orb requests w in
      let replies = replies_of orb requests w in
      let none_left =
        done-no_errors (plain start_error plan.uuid "captured preparePlan errors:\n")
          (map (refused_plan orb) refusals ++ concat_map (error_of orb) replies)
          (sym p.outcome_eq ∙ d) in
      let (no_text, no_error) = append-nothing _ _ none_left in
      let no_refusal = map-nothing (refused_plan orb) refusals no_text in
      let all_replied =
        subst (λ x. Perm (map (λ a. a.0) x ++ map (λ a. a.0) replies) requests) no_refusal p.once in
      let targets =
        ap (λ t. map (λ q. some q.target) (manager_requests orb t)) p.state_eq
        ∙ target-manager_requests (with_managers orb replies (new_domain_application_manager plan))
        ∙ ap (map some) (manager_of-handled replies no_error)
        ∙ map-map (λ a. a.0.handled) some replies
        ∙ sym (map-map (λ a. a.0) (λ q. some q.handled) replies) in
      subst (λ x. Perm x (map (λ e. locate_node e.1.0) plans)) (sym targets)
        (subst (λ x. Perm (map (λ q. some q.handled) (map (λ a. a.0) replies)) x)
          (plan_requests-located locate_node plans m) (Perm.map (λ q. some q.handled) all_replied))

  -- Where the plan is split into fewer than 2 ^ 32 sub plans, each pending request is replied to
  -- once, and nil is nil: when preparePlan of a new domain application manager ends without an
  -- exception, destroyManager after it has one request for the manager of the node of each sub
  -- plan, and no other.
  pub prepare_plan-manager_requests :
      (activate : W → Ref × W) (embed : String → Any) (generate_uuid : String → ℕ → String)
      (locate_node : String → Option Ref) (plan : DeploymentPlan Any) (w : W)
      (plans : SubPlans (node_splitter {Any = Any})) (t : DomainApplicationManager Any Ref) (v : W)
      → split_plan node_splitter embed generate_uuid plan "" ≡ some plans
      → Replies orb
      → orb.is_nil orb.nil ≡ true
      → length plans < u32_mod
      → prepare_plan orb activate embed generate_uuid locate_node
          (new_domain_application_manager plan)
          w
        ≡ some (done tt, t, v)
      → Perm
          (map (λ r. some r.target) (manager_requests orb t))
          (map (λ e. locate_node e.1.0) plans)
  unfolding ended_well
  prepare_plan-manager_requests activate embed generate_uuid locate_node plan w plans t v split r n
        b d =
      let (ended, w', e, ends) =
        prepare_plan-PlanEnds orb activate embed generate_uuid locate_node
          (new_domain_application_manager plan) w plans split r n b in
      let same = some-injective _ _ (sym e ∙ d) in
      elim ends [
        | inl (key, missing, thrown) ↦
            absurd (true≢false (ap ended_well (sym (ap (λ x. x.0) same) ∙ ap (λ x. x.0) thrown)))
        | inr (m, p) ↦
            subst
              (λ x.
                Perm (map (λ q. some q.target) (manager_requests orb x))
                  (map (λ e. locate_node e.1.0) plans))
              (ap (λ x. x.1) same)
              (Prepares-located locate_node plans plan w ended
                (plan_requests-first_missing orb locate_node plans ∙ m) p (ap (λ x. x.0) same))
      ]
