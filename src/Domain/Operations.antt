-- ===== src/Domain/Operations.antt =====
-- How the operations of a domain application on its node applications end.
use dancex.Prelude.{List, Bool, ◌<◌, length}
use dancex.Utility.Exceptions.{start_error, stop_error}
use dancex.Events.Counter.{u32_mod}
use dancex.Domain.Requests.{Call, Orb}
use dancex.Domain.Requests
use dancex.Domain.Completes.{Replies}
use dancex.Domain.Errors.{Reports, unless_errors}
use dancex.Domain.Texts.{starting, start_excep, stop_excep, finish_launch_excep}
use dancex.Domain.Replies.{DomainApplication, app_requests}
use dancex.Domain.Application.{finish_launch, start, stop, destroy_application}
use dancex.Domain.Reports.{plain, wrapped, start-Reports, stop-Reports, finish_launch-Reports}
use dancex.Domain.Destroyed.{DestroyReports, destroy_application-Reports}

-- Where each pending request is replied to once and there are fewer than 2 ^ 32 node
-- applications, finishLaunch, start, stop and destroyApplication of a domain application end:
-- each node's request is refused, exactly where sending it throws, or replied to by the ORB, and
-- they throw exactly where there is a refusal or an exception in a reply, with a text for each,
-- by the node's name. finishLaunch throws the StartError for the plan's UUID with the texts;
-- start and stop throw one by the name DomainApplication_Impl with that in print, and
-- destroyApplication a StopError for the UUID with that in print.
pub operations-Reports :
    {Any Ref Conn W : Type 0} (orb : Orb (Call Any Ref Conn) Ref Conn W) (connections : List Conn)
    (begin : Bool) (s : DomainApplication Ref) (w : W) (r : Replies orb)
    → length s.node_applications < u32_mod
    → Reports orb
        (λ node.
          starting orb.print node "CORBA exception starting"
            "unknown exception starting finishLaunch")
        (finish_launch_excep orb.print)
        (app_requests orb (Requests.finish_launch connections begin) s)
        w
        (finish_launch orb connections begin s w).0
        (unless_errors (plain start_error s.plan_uuid "Got the following finishLaunch errors: "))
      × Reports orb
          (λ node. starting orb.print node "CORBA exception starting" "unknown exception starting")
          (start_excep orb.print)
          (app_requests orb Requests.start s)
          w
          (start orb s w).0
          (unless_errors (wrapped orb.print start_error s.plan_uuid "captured start errors:\n"))
      × Reports orb
          (λ node. starting orb.print node "CORBA exception stopping" "unknown exception stopping")
          (stop_excep orb.print)
          (app_requests orb Requests.stop s)
          w
          (stop orb s w).0
          (unless_errors (wrapped orb.print stop_error s.plan_uuid "captured stop errors:\n"))
      × DestroyReports orb r s w (destroy_application orb s w).0
operations-Reports orb connections begin s w r b = (
  finish_launch-Reports orb r connections begin s w b,
  start-Reports orb r s w b,
  stop-Reports orb r s w b,
  destroy_application-Reports orb r s w b,
)
