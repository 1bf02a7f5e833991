-- ===== src/Domain/Replies.antt =====
-- dancex11/domain_deployment_handler/dancex11_ddh_application_impl.{h,cpp}: the state of
-- `DomainApplication_Impl`, the reply handlers that it makes, and how errors become exceptions.
use dancex.Prelude.{List, [], ◌∷◌, none, some, String, if◌then◌else◌, map, str_append, is_empty}
use dancex.Utility.Exceptions.{UserKind, start_error}
use dancex.Domain.Requests.{
  Fault, user, system, invalid_reference, foreign, Call, Request, answered, raised, Orb, Handler,
  send_all, idle, collect, lines,
}
use dancex.Domain.Texts.{starting, start_launch_excep, destroy_application_excep}

-- How an operation ends; it may wait for ever.
pub data Outcome (A : Type 0) : Type 0 where
  done : A → Outcome A
  throws : Fault → Outcome A
  blocked : Outcome A

pub record NamResult (Ref Conn : Type 0) : Type 0 where
  pub nam : Ref
  pub node : String
  pub app : Ref
  pub provided_reference : List Conn
  pub error : String

pub record NaResult : Type 0 where
  pub node : String
  pub error : String

pub record DomainApplication (Ref : Type 0) : Type 0 where
  pub plan_uuid : String
  pub node_applications : List (Ref × Ref)
  pub app_node_ids : List (Ref × String)
  pub nams : List (Ref × Ref)
  pub node_ids : List (Ref × String)

abbrev nam_error : {Ref Conn : Type 0} → Ref → String → NamResult Ref Conn
nam_error nil error = record {
  nam = nil;
  node = "";
  app = nil;
  provided_reference = [];
  error = error;
}

abbrev na_error : String → NaResult
na_error error = record { node = ""; error = error }

-- The errors of the results that have one.
unfoldable pub errors_of : {F : Type 0} → (F → String) → List F → List String
errors_of error [] = []
errors_of error (result ∷ results) =
    if is_empty (error result)
    then errors_of error results
    else error result ∷ errors_of error results

module _ {Any Ref Conn W : Type 0} (orb : Orb (Call Any Ref Conn) Ref Conn W) where
  -- The results of a request to a node application manager that gives nothing, or an application.
  unfoldable pub launch_handler : Handler (NamResult Ref Conn) (Call Any Ref Conn) Ref Conn
  unfolding starting start_launch_excep
  launch_handler = record {
    unset = nam_error orb.nil "";
    refused = λ request ex. nam_error orb.nil (
        starting orb.print request.node "CORBA exception starting startLaunch"
          "unknown C++ exception starting startLaunch" ex);
    reply = λ request answer. elim answer [
      | answered app provided ↦ record {
        nam = request.handled;
        node = request.node;
        app = app;
        provided_reference = provided;
        error = "";
      }
      | raised ex ↦ nam_error orb.nil (start_launch_excep orb.print request.node ex)
    ];
  }

  unfoldable pub destroy_handler : Handler (NamResult Ref Conn) (Call Any Ref Conn) Ref Conn
  unfolding starting destroy_application_excep
  destroy_handler = record {
    unset = nam_error orb.nil "";
    refused = λ request ex. nam_error orb.nil (
        starting orb.print request.node "CORBA exception starting preparePlan"
          "unknown exception starting preparePlan" ex);
    reply = λ request answer. elim answer [
      | answered app provided ↦ record (nam_error orb.nil "") {
        nam = request.handled;
        node = request.node;
      }
      | raised ex ↦ nam_error orb.nil (destroy_application_excep orb.print request.node ex)
    ];
  }

  -- `NA_ReplyHandler`, by its operation for exceptions and the texts where the sending fails.
  unfoldable pub na_handler :
      (String → Fault → String) → String → String → Handler NaResult (Call Any Ref Conn) Ref Conn
  unfolding starting
  na_handler excep corba unknown = record {
    unset = na_error "";
    refused = λ request ex. na_error (starting orb.print request.node corba unknown ex);
    reply = λ request answer. elim answer [
      | answered app provided ↦ record { node = request.node; error = "" }
      | raised ex ↦ na_error (excep request.node ex)
    ];
  }

  -- The throw for the errors, through the handlers behind the `try` block.
  unfoldable pub report : (Fault → Fault) → UserKind → String → String → List String → Outcome Unit
  unfolding lines
  report handlers kind uuid header [] = done tt
  report handlers kind uuid header (err ∷ errors) = throws (
      handlers
        (user kind (record { name = uuid; reason = str_append header (lines (err ∷ errors)) })))

  -- The handlers of `finishLaunch`, of `start` and of `stop`.
  unfoldable pub finish_launch_catch : Fault → Fault
  finish_launch_catch (system text) = system text
  finish_launch_catch (user start_error ex) = user start_error ex
  finish_launch_catch (user kind ex) =
      user start_error
        (record { name = "DomainApplication_Impl"; reason = orb.print (user kind ex) })
  finish_launch_catch invalid_reference =
      user start_error
        (record { name = "DomainApplication_Impl"; reason = orb.print invalid_reference })
  finish_launch_catch foreign =
      user start_error (record {
        name = "DomainApplication_Impl";
        reason = "Unknown C++ exception in finishLaunch";
      })

  unfoldable pub start_catch : UserKind → String → String → Fault → Fault
  start_catch kind uuid unknown foreign = user kind (record { name = uuid; reason = unknown })
  start_catch kind uuid unknown ex =
      user kind (record { name = "DomainApplication_Impl"; reason = orb.print ex })

  -- The handlers of `startLaunch` and of `destroyApplication`.
  unfoldable pub launch_catch : UserKind → String → String → Fault → Fault
  launch_catch kind uuid operation foreign = user kind (record {
    name = uuid;
    reason = str_append uuid (str_append " - unknown exception handling " operation);
  })
  launch_catch kind uuid operation ex = user kind (record {
    name = uuid;
    reason = str_append uuid (
        str_append " - CORBA exception handling "
          (str_append operation (str_append " : " (orb.print ex))));
  })

  -- `findNodeTApp2Id`
  unfoldable pub find_node_app : List (Ref × String) → Ref → String
  find_node_app [] app = ""
  find_node_app ((first, node) ∷ app_node_ids) app =
      if orb.is_equivalent first app then node else find_node_app app_node_ids app

  -- The loop of `startLaunch` over the node managers: the last equivalent one gives the name.
  unfoldable pub last_node_id : List (Ref × String) → Ref → String → String
  last_node_id [] nm node_id = node_id
  last_node_id ((first, node) ∷ node_ids) nm node_id =
      last_node_id node_ids nm (if orb.is_equivalent first nm then node else node_id)

  -- The requests to the node applications.
  unfoldable pub app_requests :
      Call Any Ref Conn → DomainApplication Ref → List (Request (Call Any Ref Conn) Ref)
  unfolding find_node_app
  app_requests message s =
      map
        (λ entry. record {
          node = find_node_app s.app_node_ids entry.0;
          handled = entry.0;
          target = entry.0;
          message = message;
        })
        s.node_applications

  -- Sends a request to each node application, and reports the errors.
  unfoldable pub call_apps :
      Handler NaResult (Call Any Ref Conn) Ref Conn
      → (List String → Outcome Unit)
      → Call Any Ref Conn
      → DomainApplication Ref
      → W
      → Outcome Unit × W
  unfolding app_requests send_all collect errors_of
  call_apps handler reported message s w =
      let (results, w') =
        collect orb handler (send_all orb handler (app_requests message s) (idle orb handler w)) in
      (
        elim results [
          | none ↦ blocked
          | some list ↦ reported (errors_of (λ result. result.error) list)
        ],
        w',
      )
