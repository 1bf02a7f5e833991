-- ===== src/Domain/Reports.antt =====
-- How `finishLaunch`, `start` and `stop` of a domain application end.
use dancex.Prelude.{
  List, [], ◌∷◌, none, some, Bool, false, String, ◌≡◌, refl, ap, ◌∙◌, ◌<◌, is_empty, length,
  length-map, arith, str_append,
}
use dancex.Utility.Exceptions.{UserKind, start_error, stop_error}
use dancex.Events.Counter.{u32_mod}
use dancex.Domain.Requests.{
  Fault, user, Call, Request, Answer, answered, raised, Orb, Handler, send_all, collect, idle,
}
use dancex.Domain.Requests
use dancex.Domain.Completes.{Replies, refusals_of, replies_of, collect-Ended}
use dancex.Domain.Errors.{
  HasTexts, Reports, unless_errors, errors_of-Ended, starting-IsText, start_excep-IsText,
  stop_excep-IsText, finish_launch_excep-IsText,
}
use dancex.Domain.Replies.{
  Outcome, blocked, DomainApplication, errors_of, na_handler, finish_launch_catch, start_catch,
  launch_catch, report, call_apps, app_requests,
}
use dancex.Domain.Texts.{starting, start_excep, stop_excep, finish_launch_excep}
use dancex.Domain.Application.{finish_launch, start, stop}

-- The exception for the texts, and the one that the handler for `CORBA::Exception` makes of it.
abbrev pub plain : UserKind → String → String → String → Fault
plain kind uuid header text = user kind (record { name = uuid; reason = str_append header text })

abbrev pub wrapped : (Fault → String) → UserKind → String → String → String → Fault
wrapped print kind uuid header text =
    user kind
      (record { name = "DomainApplication_Impl"; reason = print (plain kind uuid header text) })

-- The same, for the handlers that name the operation.
abbrev pub handled : (Fault → String) → UserKind → String → String → String → String → Fault
handled print kind uuid operation header text = user kind (record {
  name = uuid;
  reason = str_append uuid (
      str_append " - CORBA exception handling "
        (str_append operation (str_append " : " (print (plain kind uuid header text)))));
})

module _ {Any Ref Conn W : Type 0} (orb : Orb (Call Any Ref Conn) Ref Conn W)
    (replies : Replies orb) where
  na_handler-HasTexts :
      (excep : String → Fault → String) (corba unknown : String)
      → ((node : String) (ex : Fault) → is_empty (excep node ex) ≡ false)
      → HasTexts
          (na_handler orb excep corba unknown)
          (λ result. result.error)
          (λ node. starting orb.print node corba unknown)
          excep
  unfolding na_handler
  na_handler-HasTexts excep corba unknown h = record {
    refused_eq = λ request ex. refl;
    raised_eq = λ request ex. refl;
    answered_eq = λ request app provided. refl;
    refused-IsText = λ node ex. starting-IsText orb.print node corba unknown ex;
    raised-IsText = h;
  }

  pub requests-Reports :
      {F : Type 0} (handler : Handler F (Call Any Ref Conn) Ref Conn) (error : F → String)
      (refused excep : String → Fault → String) (requests : List (Request (Call Any Ref Conn) Ref))
      (reported : List String → Outcome Unit) (w : W)
      → HasTexts handler error refused excep
      → length requests < u32_mod
      → Reports orb refused excep requests w
          (elim (collect orb handler (send_all orb handler requests (idle orb handler w))).0 [
            | none ↦ blocked
            | some list ↦ reported (errors_of error list)
          ])
          reported
  requests-Reports handler error refused excep requests reported w texts b =
      let e = collect-Ended orb handler requests w replies b in
      (
        e.once,
        rw e.results_eq (
            ap reported (
              errors_of-Ended handler error refused excep texts (refusals_of orb requests w)
                (replies_of orb requests w))),
      )

  length-app_requests :
      (message : Call Any Ref Conn) (s : DomainApplication Ref)
      → length (app_requests orb message s) ≡ length s.node_applications
  unfolding app_requests
  length-app_requests message s = length-map _ s.node_applications

  call_apps-Reports :
      (excep : String → Fault → String) (corba unknown : String)
      (reported ended : List String → Outcome Unit) (message : Call Any Ref Conn)
      (s : DomainApplication Ref) (w : W)
      → ((errors : List String) → reported errors ≡ ended errors)
      → ((node : String) (ex : Fault) → is_empty (excep node ex) ≡ false)
      → length s.node_applications < u32_mod
      → Reports orb
          (λ node. starting orb.print node corba unknown)
          excep
          (app_requests orb message s)
          w
          (call_apps orb (na_handler orb excep corba unknown) reported message s w).0
          ended
  unfolding call_apps
  call_apps-Reports excep corba unknown reported ended message s w same h b =
      let (once, e) =
        requests-Reports (na_handler orb excep corba unknown) (λ result. result.error)
          (λ node. starting orb.print node corba unknown) excep (app_requests orb message s)
          reported w (na_handler-HasTexts excep corba unknown h)
          (omega (arith, length-app_requests message s)) in
      (once, e ∙ same _)

  report-wrapped :
      (kind : UserKind) (uuid unknown header : String) (errors : List String)
      → report orb (start_catch orb kind uuid unknown) kind uuid header errors
        ≡ unless_errors (wrapped orb.print kind uuid header) errors
  unfolding report start_catch
  report-wrapped kind uuid unknown header [] = refl
  report-wrapped kind uuid unknown header (err ∷ errors) = refl

  report-finish :
      (uuid header : String) (errors : List String)
      → report orb (finish_launch_catch orb) start_error uuid header errors
        ≡ unless_errors (plain start_error uuid header) errors
  unfolding report finish_launch_catch
  report-finish uuid header [] = refl
  report-finish uuid header (err ∷ errors) = refl

  pub report-handled :
      (kind : UserKind) (uuid operation header : String) (errors : List String)
      → report orb (launch_catch orb kind uuid operation) kind uuid header errors
        ≡ unless_errors (handled orb.print kind uuid operation header) errors
  unfolding report launch_catch
  report-handled kind uuid operation header [] = refl
  report-handled kind uuid operation header (err ∷ errors) = refl

  -- Where each pending request is replied to once and there are fewer than 2 ^ 32 node
  -- applications, start of a domain application ends: each node's request was refused or replied
  -- to, and it throws exactly where there is a refusal or an exception; the StartError that it
  -- throws is not the one with the plan's UUID and the texts, but one by the name
  -- DomainApplication_Impl with that one in print.
  pub start-Reports :
      (s : DomainApplication Ref) (w : W)
      → length s.node_applications < u32_mod
      → Reports orb
          (λ node. starting orb.print node "CORBA exception starting" "unknown exception starting")
          (start_excep orb.print)
          (app_requests orb Requests.start s)
          w
          (start orb s w).0
          (unless_errors (wrapped orb.print start_error s.plan_uuid "captured start errors:\n"))
  unfolding start
  start-Reports s w b =
      call_apps-Reports (start_excep orb.print) "CORBA exception starting"
        "unknown exception starting"
        (report orb (start_catch orb start_error s.plan_uuid "unknown exception in start")
          start_error s.plan_uuid "captured start errors:\n")
        (unless_errors (wrapped orb.print start_error s.plan_uuid "captured start errors:\n"))
        Requests.start s w
        (report-wrapped start_error s.plan_uuid "unknown exception in start"
          "captured start errors:\n")
        (λ node ex. start_excep-IsText orb.print node ex) b

  pub stop-Reports :
      (s : DomainApplication Ref) (w : W)
      → length s.node_applications < u32_mod
      → Reports orb
          (λ node. starting orb.print node "CORBA exception stopping" "unknown exception stopping")
          (stop_excep orb.print)
          (app_requests orb Requests.stop s)
          w
          (stop orb s w).0
          (unless_errors (wrapped orb.print stop_error s.plan_uuid "captured stop errors:\n"))
  unfolding stop
  stop-Reports s w b =
      call_apps-Reports (stop_excep orb.print) "CORBA exception stopping"
        "unknown exception stopping"
        (report orb (start_catch orb stop_error s.plan_uuid "unknown exception in stop") stop_error
          s.plan_uuid "captured stop errors:\n")
        (unless_errors (wrapped orb.print stop_error s.plan_uuid "captured stop errors:\n"))
        Requests.stop s w
        (report-wrapped stop_error s.plan_uuid "unknown exception in stop"
          "captured stop errors:\n")
        (λ node ex. stop_excep-IsText orb.print node ex) b

  pub finish_launch-Reports :
      (connections : List Conn) (begin : Bool) (s : DomainApplication Ref) (w : W)
      → length s.node_applications < u32_mod
      → Reports orb
          (λ node.
            starting orb.print node "CORBA exception starting"
              "unknown exception starting finishLaunch")
          (finish_launch_excep orb.print)
          (app_requests orb (Requests.finish_launch connections begin) s)
          w
          (finish_launch orb connections begin s w).0
          (unless_errors (plain start_error s.plan_uuid "Got the following finishLaunch errors: "))
  unfolding finish_launch
  finish_launch-Reports connections begin s w b =
      call_apps-Reports (finish_launch_excep orb.print) "CORBA exception starting"
        "unknown exception starting finishLaunch"
        (report orb (finish_launch_catch orb) start_error s.plan_uuid
          "Got the following finishLaunch errors: ")
        (unless_errors (plain start_error s.plan_uuid "Got the following finishLaunch errors: "))
        (Requests.finish_launch connections begin) s w
        (report-finish s.plan_uuid "Got the following finishLaunch errors: ")
        (λ node ex. finish_launch_excep-IsText orb.print node ex) b
