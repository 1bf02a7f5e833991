-- ===== src/Domain/Prepared.antt =====
-- How `preparePlan` of a domain application manager ends, and what it leaves.
use mathlib.Core.List.{Perm, append_assoc, append-nil}
use dancex.Prelude.{
  ℕ, List, [], ◌∷◌, ◌++◌, Option, none, some, true, String, ◌≡◌, refl, ap, ◌∙◌, sym, ◌<◌, ◌≤◌, map,
  if◌then◌else◌, length, concat_map, arith, Bool-cases, Option-cases, ◌⊎◌, inl, inr,
}
use dancex.Utility.Exceptions.{UserKind, start_error}
use dancex.Split.Interface.{SubPlans}
use dancex.Split.Node.{node_splitter}
use dancex.Split.Copying.{split_plan}
use dancex.Events.Counter.{u32_mod}
use dancex.Domain.Requests.{
  Fault, user, Call, Request, Answer, answered, raised, Orb, send_all, collect, idle,
}
use dancex.Domain.Completes.{refusals_of, replies_of, Replies, collect-Ended, refusal, result}
use dancex.Domain.Errors.{refused_text, unless_errors}
use dancex.Domain.Replies.{Outcome, throws, report}
use dancex.Domain.Texts.{starting}
use dancex.Domain.Reports.{plain}
use dancex.Domain.Nodes.{
  DomainApplicationManager, NmResult, prepare_handler, prepare_plan_excep, plan_requests, prepared,
}
use dancex.Domain.Manager.{prepare_plan}

module _ {Any Ref Conn W : Type 0} (orb : Orb (Call Any Ref Conn) Ref Conn W) where
  abbrev pub Reply : Type 0
  Reply = Request (Call Any Ref Conn) Ref × Answer Ref Conn

  pub report-plain :
      (kind : UserKind) (uuid header : String) (errors : List String)
      → report orb (λ ex. ex) kind uuid header errors
        ≡ unless_errors (plain kind uuid header) errors
  unfolding report
  report-plain kind uuid header [] = refl
  report-plain kind uuid header (err ∷ errors) = refl

  -- What a reply adds: the manager of the application with that of the node, the name of the node,
  -- or an error.
  abbrev pub manager_of : Reply → List (Ref × Ref)
  manager_of (request, answered am provided) =
      if orb.is_nil am then [] else (am, request.handled) ∷ []
  manager_of (request, raised ex) = []

  abbrev pub name_of : Reply → List (Ref × String)
  name_of (request, answered am provided) =
      if orb.is_nil am then [] else (request.handled, request.node) ∷ []
  name_of (request, raised ex) = []

  abbrev pub error_of : Reply → List String
  error_of (request, answered am provided) = if orb.is_nil am then "" ∷ [] else []
  error_of (request, raised ex) = prepare_plan_excep orb.print request.node ex ∷ []

  abbrev pub refused_plan : Request (Call Any Ref Conn) Ref × Fault → String
  refused_plan = refused_text λ node.
      starting orb.print node "CORBA exception starting preparePlan"
        "unknown exception starting preparePlan"

  abbrev pub with_managers :
      List Reply → DomainApplicationManager Any Ref → DomainApplicationManager Any Ref
  with_managers replies s = record s {
    sub_app_mgr = s.sub_app_mgr ++ concat_map manager_of replies;
    node_ids = s.node_ids ++ concat_map name_of replies;
  }

  prepared-replies :
      (replies : List Reply) (s : DomainApplicationManager Any Ref)
      → orb.is_nil orb.nil ≡ true
      → prepared orb (map (result (prepare_handler orb)) replies) s
        ≡ (with_managers replies s, concat_map error_of replies)
  unfolding prepared prepare_handler
  prepared-replies [] s n = λ i. (
    record s {
      sub_app_mgr = sym (append-nil s.sub_app_mgr) i;
      node_ids = sym (append-nil s.node_ids) i;
    },
    [],
  )
  prepared-replies ((request, raised ex) ∷ replies) s n =
      rw (n, prepared-replies replies s n, prepared) refl
  prepared-replies ((request, answered am provided) ∷ replies) s n =
      elim (Bool-cases (orb.is_nil am)) [
        | inl e ↦ rw (e, prepared-replies replies s n, prepared) refl
        | inr e ↦
            rw (e, prepared)
              (prepared-replies replies
                  (record s {
                    sub_app_mgr = s.sub_app_mgr ++ (am, request.handled) ∷ [];
                    node_ids = s.node_ids ++ (request.handled, request.node) ∷ [];
                  })
                  n
                ∙ λ i. (
                  record s {
                    sub_app_mgr =
                        append_assoc s.sub_app_mgr ((am, request.handled) ∷ [])
                          (concat_map manager_of replies) i;
                    node_ids =
                        append_assoc s.node_ids ((request.handled, request.node) ∷ [])
                          (concat_map name_of replies) i;
                  },
                  concat_map error_of replies,
                ))
      ]

  prepared-refusals :
      (refusals : List (Request (Call Any Ref Conn) Ref × Fault)) (rest : List (NmResult Ref))
      (s : DomainApplicationManager Any Ref)
      → orb.is_nil orb.nil ≡ true
      → prepared orb (map (refusal (prepare_handler orb)) refusals ++ rest) s
        ≡ (let (t, errors) = prepared orb rest s in (t, map refused_plan refusals ++ errors))
  unfolding prepared prepare_handler
  prepared-refusals [] rest s n = refl
  prepared-refusals ((request, ex) ∷ refusals) rest s n =
      rw (n, prepared-refusals refusals rest s n, prepared) refl

  -- How `preparePlan` ends by what the ORB refuses and replies, and what it leaves.
  pub record Prepares (requests : List (Request (Call Any Ref Conn) Ref)) (w : W)
      (s : DomainApplicationManager Any Ref)
      (ended : Outcome Unit × DomainApplicationManager Any Ref) : Type 0 where
    pub once :
        Perm
          (map (λ a. a.0) (refusals_of orb requests w)
            ++ map (λ a. a.0) (replies_of orb requests w))
          requests
    pub outcome_eq :
        ended.0
        ≡ unless_errors (plain start_error s.plan.uuid "captured preparePlan errors:\n") (
            map refused_plan (refusals_of orb requests w)
            ++ concat_map error_of (replies_of orb requests w))
    pub state_eq : ended.1 ≡ with_managers (replies_of orb requests w) s

  length-plan_requests :
      (locate_node : String → Option Ref) (plans : SubPlans (node_splitter {Any = Any}))
      → length (plan_requests orb locate_node plans).1 ≤ length plans
  unfolding plan_requests
  length-plan_requests locate_node [] = omega arith
  length-plan_requests locate_node ((text, (key, sub_plan)) ∷ plans) =
      elim (Option-cases (locate_node key)) [
        | inl e ↦ rw (e, plan_requests) (omega arith)
        | inr (nm, e) ↦
            let shorter = length-plan_requests locate_node plans in
            rw (e, plan_requests) (omega arith)
      ]

  -- The node of the first sub plan for which no manager is found.
  abbrev pub first_missing :
      (String → Option Ref) → SubPlans (node_splitter {Any = Any}) → Option String
  first_missing locate_node [] = none
  first_missing locate_node ((_, (key, _)) ∷ plans) = elim (locate_node key) [
    | none ↦ some key
    | some nm ↦ first_missing locate_node plans
  ]

  pub plan_requests-first_missing :
      (locate_node : String → Option Ref) (plans : SubPlans (node_splitter {Any = Any}))
      → (plan_requests orb locate_node plans).0 ≡ first_missing locate_node plans
  unfolding plan_requests
  plan_requests-first_missing locate_node [] = refl
  plan_requests-first_missing locate_node ((text, (key, sub_plan)) ∷ plans) =
      elim (Option-cases (locate_node key)) [
        | inl e ↦ rw (e, plan_requests, first_missing) refl
        | inr (nm, e) ↦
            rw (e, plan_requests, first_missing) (plan_requests-first_missing locate_node plans)
      ]

  -- The node of a sub plan that has no manager, or the end of the requests.
  abbrev pub PlanEnds :
      (String → Option Ref)
      → SubPlans (node_splitter {Any = Any})
      → DomainApplicationManager Any Ref
      → W
      → Outcome Unit × DomainApplicationManager Any Ref
      → Type 0
  PlanEnds locate_node plans s w ended =
      ((key : String) × (first_missing locate_node plans ≡ some key)
        × (ended ≡ (
          throws (user start_error (record { name = key; reason = "NodeManager not found" })),
          s,
        )))
      ⊎ ((first_missing locate_node plans ≡ none)
          × Prepares (plan_requests orb locate_node plans).1 w s ended)

  -- Where the plan is split into fewer than 2 ^ 32 sub plans, each pending request is replied to
  -- once, and nil is nil, preparePlan of a domain application manager ends: with a StartError
  -- that names the first node without a manager, and an unchanged state; or, where all have one,
  -- with each sub plan refused, where sending it throws, or replied to, by one of the replies
  -- that the ORB hands over. Then the managers that are not nil are appended with their nodes in
  -- the order of the replies, and it throws a StartError for the plan exactly where there is an
  -- error, with a text for each refusal, each exception and each nil manager.
  pub prepare_plan-PlanEnds :
      (activate : W → Ref × W) (embed : String → Any) (generate_uuid : String → ℕ → String)
      (locate_node : String → Option Ref) (s : DomainApplicationManager Any Ref) (w : W)
      (plans : SubPlans (node_splitter {Any = Any}))
      → split_plan node_splitter embed generate_uuid s.plan "" ≡ some plans
      → Replies orb
      → orb.is_nil orb.nil ≡ true
      → length plans < u32_mod
      → (ended : Outcome Unit × DomainApplicationManager Any Ref) × (w' : W) × (prepare_plan orb
            activate embed generate_uuid locate_node s w
          ≡ some (ended.0, ended.1, w'))
        × PlanEnds locate_node plans s w ended
  unfolding prepare_plan
  prepare_plan-PlanEnds activate embed generate_uuid locate_node s w plans split r n b =
      let requests = (plan_requests orb locate_node plans).1 in
      let refusals = refusals_of orb requests w in
      let replies = replies_of orb requests w in
      let known = sym (plan_requests-first_missing locate_node plans) in
      let e =
        collect-Ended orb (prepare_handler orb) requests w r
          (omega (arith, length-plan_requests locate_node plans)) in
      elim (Option-cases (plan_requests orb locate_node plans).0) [
        | inl none_missing ↦
            let taken =
              prepared-refusals refusals (map (result (prepare_handler orb)) replies) s n
              ∙ ap (λ l. (l.0, map refused_plan refusals ++ l.1)) (prepared-replies replies s n) in
            let sent =
              send_all orb (prepare_handler orb) requests (idle orb (prepare_handler orb) w) in
            (
              (
                unless_errors (plain start_error s.plan.uuid "captured preparePlan errors:\n")
                    (map refused_plan refusals ++ concat_map error_of replies),
                with_managers replies s,
              ),
              (collect orb (prepare_handler orb) sent).1,
              rw (split, none_missing, e.results_eq, prepare_plan)
                  (ap
                      (λ l. some (
                        report orb (λ ex. ex) start_error s.plan.uuid
                            "captured preparePlan errors:\n" l.1,
                        l.0,
                        (collect orb (prepare_handler orb) sent).1,
                      ))
                      taken
                    ∙ ap
                        (λ o.
                          some (
                            o,
                            with_managers replies s,
                            (collect orb (prepare_handler orb) sent).1,
                          ))
                        (report-plain start_error s.plan.uuid "captured preparePlan errors:\n" _)),
              inr (
                known ∙ none_missing,
                record { once = e.once; outcome_eq = refl; state_eq = refl },
              ),
            )
        | inr (key, missing) ↦ (
          (throws (user start_error (record { name = key; reason = "NodeManager not found" })), s),
          (send_all orb (prepare_handler orb) requests (idle orb (prepare_handler orb) w)).world,
          rw (split, missing, prepare_plan) refl,
          inl (key, known ∙ missing, refl),
        )
      ]
