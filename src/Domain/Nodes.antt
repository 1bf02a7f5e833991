-- ===== src/Domain/Nodes.antt =====
-- dancex11/domain_deployment_handler/dancex11_ddh_application_manager_impl.{h,cpp}: the state of
-- `DomainApplicationManager_Impl`, and its requests to the node managers.
use dancex.Prelude.{List, [], ◌∷◌, ◌++◌, Option, none, some, String, if◌then◌else◌, map, str_append}
use dancex.Utility.Exceptions.{plan_error, start_error}
use dancex.Split.Plan.{DeploymentPlan}
use dancex.Split.Interface.{SubPlans}
use dancex.Split.Node.{node_splitter}
use dancex.Domain.Requests.{
  Fault, user, Call, prepare_plan, destroy_manager, Request, answered, raised, Orb, Handler,
}
use dancex.Domain.Replies.{DomainApplication}
use dancex.Domain.Texts.{starting, stop_label}

-- A domain application with its reference, while its servant is active.
abbrev pub Running : Type 0 → Type 0
Running Ref = Option Ref × DomainApplication Ref

pub record DomainApplicationManager (Any Ref : Type 0) : Type 0 where
  pub plan : DeploymentPlan Any
  pub sub_app_mgr : List (Ref × Ref)
  pub node_ids : List (Ref × String)
  pub running_app : List (Running Ref)

abbrev pub new_domain_application_manager :
    {Any Ref : Type 0} → DeploymentPlan Any → DomainApplicationManager Any Ref
new_domain_application_manager plan = record {
  plan = plan;
  sub_app_mgr = [];
  node_ids = [];
  running_app = [];
}

pub record NmResult (Ref : Type 0) : Type 0 where
  pub nm : Ref
  pub node : String
  pub am : Ref
  pub error : String

abbrev nm_error : {Ref : Type 0} → Ref → String → NmResult Ref
nm_error nil error = record { nm = nil; node = ""; am = nil; error = error }

module _ (print : Fault → String) where
  unfoldable pub prepare_plan_excep : String → Fault → String
  unfolding starting
  prepare_plan_excep node (user plan_error ex) = str_append node (
      str_append " - PlanError exception starting preparePlan : "
        (str_append ex.name (str_append ", " ex.reason)))
  prepare_plan_excep node (user start_error ex) =
      starting print node "StartError exception starting preparePlan" "" (user start_error ex)
  prepare_plan_excep node ex =
      starting print node "CORBA exception starting preparePlan"
        "unknown exception starting preparePlan" ex

  unfoldable pub destroy_manager_excep : String → Fault → String
  unfolding starting
  destroy_manager_excep node ex =
      starting print node (str_append (stop_label ex) " exception executing destroyManager")
        "unknown exception executing destroyManager" ex

module _ {Any Ref Conn W : Type 0} (orb : Orb (Call Any Ref Conn) Ref Conn W) where
  unfoldable pub prepare_handler : Handler (NmResult Ref) (Call Any Ref Conn) Ref Conn
  unfolding starting prepare_plan_excep
  prepare_handler = record {
    unset = nm_error orb.nil "";
    refused = λ request ex. nm_error orb.nil (
        starting orb.print request.node "CORBA exception starting preparePlan"
          "unknown exception starting preparePlan" ex);
    reply = λ request answer. elim answer [
      | answered am provided ↦ record {
        nm = request.handled;
        node = request.node;
        am = am;
        error = "";
      }
      | raised ex ↦ nm_error orb.nil (prepare_plan_excep orb.print request.node ex)
    ];
  }

  unfoldable pub destroy_manager_handler : Handler (NmResult Ref) (Call Any Ref Conn) Ref Conn
  unfolding starting destroy_manager_excep
  destroy_manager_handler = record {
    unset = nm_error orb.nil "";
    refused = λ request ex. nm_error orb.nil (
        starting orb.print request.node "CORBA exception starting destroyManager"
          "unknown exception starting destroyManager" ex);
    reply = λ request answer. elim answer [
      | answered am provided ↦ record (nm_error orb.nil "") { node = request.node }
      | raised ex ↦ nm_error orb.nil (destroy_manager_excep orb.print request.node ex)
    ];
  }

  -- The requests of `preparePlan`, up to the first sub plan whose node has no manager.
  unfoldable pub plan_requests :
      (String → Option Ref)
      → SubPlans (node_splitter {Any = Any})
      → Option String × List (Request (Call Any Ref Conn) Ref)
  plan_requests locate_node [] = (none, [])
  plan_requests locate_node ((text, (key, sub_plan)) ∷ plans) =
      let (missing, requests) = plan_requests locate_node plans in
      elim (locate_node key) [
        | none ↦ (some key, [])
        | some nm ↦ (
          missing,
          record { node = key; handled = nm; target = nm; message = prepare_plan sub_plan }
              ∷ requests,
        )
      ]

  -- The loop of `preparePlan` over the results.
  unfoldable pub prepared :
      List (NmResult Ref)
      → DomainApplicationManager Any Ref
      → DomainApplicationManager Any Ref × List String
  prepared [] s = (s, [])
  prepared (result ∷ results) s =
      let next = record s {
        sub_app_mgr = s.sub_app_mgr ++ (result.am, result.nm) ∷ [];
        node_ids = s.node_ids ++ (result.nm, result.node) ∷ [];
      } in
      let (t, errors) = prepared results s in
      let taken = prepared results next in
      if orb.is_nil result.am then (t, result.error ∷ errors) else taken

  -- `findNode4NM`
  unfoldable pub find_node : List (Ref × String) → Ref → String
  find_node [] nm = ""
  find_node ((first, node) ∷ node_ids) nm =
      if orb.is_equivalent nm first then node else find_node node_ids nm

  unfoldable pub manager_requests :
      DomainApplicationManager Any Ref → List (Request (Call Any Ref Conn) Ref)
  unfolding find_node
  manager_requests s =
      map
        (λ entry. record {
          node = find_node s.node_ids entry.1;
          handled = entry.1;
          target = entry.1;
          message = destroy_manager entry.0;
        })
        s.sub_app_mgr
