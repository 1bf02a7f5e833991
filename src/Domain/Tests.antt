-- ===== src/Domain/Tests.antt =====
-- The theorems of the domain's applications and managers at small samples.
use dancex.Split.Copying.{split_plan}
use dancex.Split.Node.{node_splitter}
use dancex.Split.Interface.{SubPlans}
use mathlib.Core.List.{Perm}
use dancex.Prelude.{true, ℕ, List, [], ◌∷◌, none, some, ◌≡◌, refl, map, arith}
use dancex.StringMap.{SMap, find, erase}
use dancex.NodeLocator.{locate_node}
use dancex.Utility.Exceptions.{start_error, stop_error, plan_error}
use dancex.Domain.Requests.{user, invalid_reference, start, send_all, collect, idle}
use dancex.Domain.Completes.{Ended, collect-Ended}
use dancex.Domain.Errors.{Reports, unless_errors}
use dancex.Domain.Replies.{Outcome, done, throws, app_requests, launch_handler}
use dancex.Domain.Texts.{starting, start_excep, stop_excep, finish_launch_excep}
use dancex.Domain.Application
use dancex.Domain.Application.{new_domain_application, destroy_requests}
use dancex.Domain.Requests
use dancex.Domain.Destroyed.{DestroyReports}
use dancex.Domain.Operations.{operations-Reports}
use dancex.Domain.Reports.{wrapped, plain}
use dancex.Domain.Launched.{Launches, start_launch-Launches}
use dancex.Domain.Matched.{start_launch-destroy_requests}
use dancex.Domain.Nodes.{
  Running, DomainApplicationManager, new_domain_application_manager, manager_requests,
}
use dancex.Domain.Owned.{prepare_plan-manager_requests}
use dancex.Domain.Sent.{IsForNode, plan_requests-IsForNode}
use dancex.Domain.Nodes.{plan_requests}
use dancex.Split.Ranges.{InRange}
use dancex.Prelude.{All}
use dancex.Domain.Registered.{IsRegistry}
use dancex.Domain.Steps.{nothing, prepares, destroys, run-IsRegistry}
use dancex.Domain.Manager
use dancex.Domain.Prepared.{PlanEnds, prepare_plan-PlanEnds}
use dancex.Domain.Ending.{Left, NodeReports, destroy_manager-NodeReports}
use dancex.Domain.Retry.{destroy_application-retry}
use dancex.Domain.Execution
use dancex.Domain.Execution.{Managed, ExecutionManager}
use dancex.Domain.Managed.{PrepareEnds, prepared_by, prepare_plan-PrepareEnds}
use dancex.Domain.Registry.{with_map, destroy_manager-erase, destroy_manager-failed}
use dancex.Domain.Samples.{
  printed, orb, orb-Replies, is_equivalent_refl, activate, activate-new, new-activate, application,
  plan, embed, numbered, locate, failing, idle_application, launched_manager, locator, resolved,
  object_of, other, unused, prepared_manager, located, preparing, execution_manager,
}

abbrev sub_plans : SubPlans (node_splitter {Any = ℕ})
unfolding split_plan
sub_plans = elim (split_plan node_splitter embed numbered plan "") [
  | none ↦ []
  | some plans ↦ plans
]

collect-Ended_example :
    Ended orb
      (launch_handler orb)
      (app_requests orb start application)
      0
      (collect orb (launch_handler orb) (
        send_all orb
          (launch_handler orb)
          (app_requests orb start application)
          (idle orb (launch_handler orb) 0))).0
unfolding app_requests
collect-Ended_example =
    collect-Ended orb (launch_handler orb) (app_requests orb start application) 0 orb-Replies
      (omega arith)

operations-Reports_example :
    Reports orb
      (λ node.
        starting printed node "CORBA exception starting" "unknown exception starting finishLaunch")
      (finish_launch_excep printed)
      (app_requests orb (Requests.finish_launch (8 ∷ []) true) application)
      0
      (Application.finish_launch orb (8 ∷ []) true application 0).0
      (unless_errors (plain start_error "u" "Got the following finishLaunch errors: "))
    × Reports orb
        (λ node. starting printed node "CORBA exception starting" "unknown exception starting")
        (start_excep printed)
        (app_requests orb start application)
        0
        (Application.start orb application 0).0
        (unless_errors (wrapped printed start_error "u" "captured start errors:\n"))
    × Reports orb
        (λ node. starting printed node "CORBA exception stopping" "unknown exception stopping")
        (stop_excep printed)
        (app_requests orb Requests.stop application)
        0
        (Application.stop orb application 0).0
        (unless_errors (wrapped printed stop_error "u" "captured stop errors:\n"))
    × DestroyReports orb orb-Replies application 0
        (Application.destroy_application orb application 0).0
operations-Reports_example =
    operations-Reports orb (8 ∷ []) true application 0 orb-Replies (omega arith)

start_launch-Launches_example : Launches orb [] (8 ∷ []) application 0 (
    let (outcome, t, all, w') = Application.start_launch orb [] (8 ∷ []) application 0 in
    (outcome, t, all))
start_launch-Launches_example =
    start_launch-Launches orb [] (8 ∷ []) application 0 orb-Replies refl (omega arith)

start_launch-destroy_requests_example :
    Perm
      (map
        (λ r. r.target)
        (destroy_requests orb
          (Application.start_launch orb [] []
            (new_domain_application "u" ((4, 1) ∷ (5, 2) ∷ []) ((1, "a") ∷ (2, "b") ∷ []))
            0).1))
      (4 ∷ 5 ∷ [])
unfolding Application.start_launch
start_launch-destroy_requests_example =
    start_launch-destroy_requests orb [] [] "u" ((4, 1) ∷ (5, 2) ∷ []) ((1, "a") ∷ (2, "b") ∷ []) 0
      orb-Replies refl (omega arith) refl

prepare_plan-PlanEnds_example :
    (ended : Outcome Unit × DomainApplicationManager ℕ ℕ) × (w' : ℕ) × (Manager.prepare_plan orb
        activate embed numbered locate
        (new_domain_application_manager plan)
        0
      ≡ some (ended.0, ended.1, w'))
    × PlanEnds orb locate sub_plans (new_domain_application_manager plan) 0 ended
unfolding split_plan sub_plans dancex.Split.Node.match_instance find dancex.StringMap.assign
    dancex.Split.Node.match_sub_plan dancex.Split.Node.prepare_sub_plan
prepare_plan-PlanEnds_example =
    prepare_plan-PlanEnds orb activate embed numbered locate (new_domain_application_manager plan) 0
      sub_plans refl orb-Replies refl (omega arith)

destroy_manager-NodeReports_example :
    (left : List (Running ℕ)) × (destroyed : ℕ) × (outcome : Outcome Unit) × (w' : ℕ)
    × (Manager.destroy_manager orb activate launched_manager 0
        ≡ (outcome, record launched_manager { running_app = left }, w'))
    × Left orb activate launched_manager.running_app 0 left destroyed
    × NodeReports orb activate launched_manager destroyed outcome
destroy_manager-NodeReports_example =
    destroy_manager-NodeReports orb activate launched_manager 0 orb-Replies is_equivalent_refl
      (omega arith) (omega arith)

destroy_application-retry_example :
    let (outcome, left, w') =
      Manager.destroy_application orb activate 50
        ((some 40, idle_application) ∷ (some 50, failing) ∷ [])
        0 in
    (outcome
      ≡ throws (
          user stop_error (record {
            name = "u";
            reason = "u - CORBA exception handling destroyApplication : ex";
          })))
    × (Manager.destroy_application orb activate 50 left w' ≡ (
      done tt,
      (some 40, idle_application) ∷ (some (activate w').0, failing) ∷ [],
      (activate w').1,
    ))
unfolding Application.destroy_application
destroy_application-retry_example =
    destroy_application-retry orb activate 50 ((some 40, idle_application) ∷ []) [] 50 failing 0
      refl ((40, refl, refl), tt)
      (record { name = "u"; reason = "u - CORBA exception handling destroyApplication : ex" }) tt
      activate-new refl

prepare_plan-PrepareEnds_example :
    PrepareEnds orb activate embed numbered plan
      (with_map locator [])
      0
      (prepared_by orb activate embed numbered plan
        (with_map locator [])
        0
        λ node. locate_node object_of resolved node locator)
      (Execution.prepare_plan orb activate embed numbered object_of resolved plan
        (with_map locator [])
        0)
prepare_plan-PrepareEnds_example =
    prepare_plan-PrepareEnds orb activate embed numbered plan (with_map locator []) 0 object_of
      resolved

destroy_manager-erase_example :
    let (outcome, t, v) =
      Execution.destroy_manager orb activate 60
        (with_map locator (other ∷ ("u", (some 60, unused)) ∷ []))
        0 in
    (outcome ≡ done tt)
    × (t.managers ≡ erase "u" (other ∷ ("u", (some 60, unused)) ∷ []))
    × (find "u" t.managers ≡ none)
unfolding Manager.destroy_manager
destroy_manager-erase_example =
    destroy_manager-erase orb activate 60 locator (other ∷ []) [] "u" 60 unused 0 refl
      ((59, refl, refl), tt) ((refl, tt), (tt, tt)) unused 0 refl

destroy_manager-failed_example :
    let (outcome, t, v) =
      Execution.destroy_manager orb activate 60
        (with_map locator (other ∷ ("u", (some 60, prepared_manager)) ∷ []))
        0 in
    (outcome
      ≡ throws (
          user stop_error (record {
            name = "u";
            reason =
                "captured destroyManager errors:\nb - StopError exception executing destroyManager : ex\n";
          })))
    × ((Execution.destroy_manager orb activate 60 t v).0 ≡ throws invalid_reference)
    × (Execution.prepare_plan orb activate embed numbered object_of resolved plan t 5
        ≡ some (
          throws (
              user plan_error
                (record { name = "u"; reason = "Plan with same UUID already exists" })),
          t,
          5,
        ))
unfolding Manager.destroy_manager
destroy_manager-failed_example =
    destroy_manager-failed orb activate 60 locator (other ∷ []) [] "u" 60 prepared_manager 0 refl
      ((59, refl, refl), tt) ((refl, tt), (tt, tt)) prepared_manager 2
      (user stop_error (record {
        name = "u";
        reason =
            "captured destroyManager errors:\nb - StopError exception executing destroyManager : ex\n";
      }))
      embed numbered object_of resolved plan 5 refl tt new-activate refl

plan-InRange : InRange plan
plan-InRange = record {
  implementations = (omega arith, (omega arith, tt));
  artifacts = (tt, tt);
  endpoints = tt;
  localities = tt;
}

plan_requests-IsForNode_example :
    (plans : SubPlans node_splitter) × (split_plan node_splitter embed numbered plan ""
      ≡ some plans)
    × All (IsForNode orb embed numbered located plan) (plan_requests orb located plans).1
plan_requests-IsForNode_example =
    plan_requests-IsForNode orb embed numbered located plan plan-InRange

prepare_plan-manager_requests_example :
    Perm (map (λ r. some r.target) (manager_requests orb preparing)) (some 1 ∷ some 2 ∷ [])
unfolding split_plan sub_plans dancex.Split.Node.match_instance find dancex.StringMap.assign
    dancex.Split.Node.match_sub_plan dancex.Split.Node.prepare_sub_plan Manager.prepare_plan
    dancex.Split.Node.finalize_sub_plan
prepare_plan-manager_requests_example =
    prepare_plan-manager_requests orb activate embed numbered located plan 0 sub_plans preparing 2
      refl orb-Replies refl (omega arith) refl

run-IsRegistry_example :
    IsRegistry
      (Execution.destroy_manager orb activate 1002
        (record execution_manager {
          managers =
              (
                "u",
                (
                  some 1002,
                  record preparing {
                    sub_app_mgr = (101, 1) ∷ (101, 1) ∷ [];
                    node_ids = (1, "a") ∷ (1, "b") ∷ [];
                  },
                ),
              )
              ∷ [];
        })
        7).1.managers
unfolding split_plan sub_plans dancex.Split.Node.match_instance find dancex.StringMap.assign
    dancex.Split.Node.match_sub_plan dancex.Split.Node.prepare_sub_plan Execution.prepare_plan
    dancex.Split.Node.finalize_sub_plan
run-IsRegistry_example =
    run-IsRegistry orb activate (tt, tt)
      (prepares {s = execution_manager} embed numbered object_of resolved plan (done (some 1002)) 0
        3 refl (destroys 1002 7 nothing))
