-- ===== src/Domain/Application.antt =====
-- dancex11/domain_deployment_handler/dancex11_ddh_application_impl.cpp: the operations of
-- `DomainApplication_Impl`.
use dancex.Prelude.{List, [], ◌∷◌, ◌++◌, none, some, Bool, String, if◌then◌else◌, map, ltb, length}
use dancex.Utility.{Properties}
use dancex.Utility.Exceptions.{start_error, stop_error}
use dancex.Domain.Requests.{Fault, Call, Request, Orb, Handler, send_all, idle, collect, lines}
use dancex.Domain.Requests
use dancex.Domain.Replies.{
  Outcome, done, blocked, NamResult, DomainApplication, finish_launch_catch, start_catch,
  launch_catch, launch_handler, destroy_handler, na_handler, errors_of, report, find_node_app,
  last_node_id, call_apps,
}
use dancex.Domain.Texts.{start_excep, stop_excep, finish_launch_excep}

abbrev pub new_domain_application :
    {Ref : Type 0} → String → List (Ref × Ref) → List (Ref × String) → DomainApplication Ref
new_domain_application plan_uuid nams node_ids = record {
  plan_uuid = plan_uuid;
  node_applications = [];
  app_node_ids = [];
  nams = nams;
  node_ids = node_ids;
}

module _ {Any Ref Conn W : Type 0} (orb : Orb (Call Any Ref Conn) Ref Conn W) where
  unfoldable pub finish_launch : List Conn → Bool → DomainApplication Ref → W → Outcome Unit × W
  unfolding call_apps na_handler finish_launch_excep report finish_launch_catch
  finish_launch connections start s =
      call_apps orb
        (na_handler orb (finish_launch_excep orb.print) "CORBA exception starting"
          "unknown exception starting finishLaunch")
        (report orb (finish_launch_catch orb) start_error s.plan_uuid
          "Got the following finishLaunch errors: ")
        (Requests.finish_launch connections start) s

  unfoldable pub start : DomainApplication Ref → W → Outcome Unit × W
  unfolding call_apps na_handler start_excep report start_catch
  start s =
      call_apps orb
        (na_handler orb (start_excep orb.print) "CORBA exception starting"
          "unknown exception starting")
        (report orb (start_catch orb start_error s.plan_uuid "unknown exception in start")
          start_error s.plan_uuid "captured start errors:\n")
        Requests.start s

  unfoldable pub stop : DomainApplication Ref → W → Outcome Unit × W
  unfolding call_apps na_handler stop_excep report start_catch
  stop s =
      call_apps orb
        (na_handler orb (stop_excep orb.print) "CORBA exception stopping"
          "unknown exception stopping")
        (report orb (start_catch orb stop_error s.plan_uuid "unknown exception in stop") stop_error
          s.plan_uuid "captured stop errors:\n")
        Requests.stop s

  unfoldable pub launch_requests :
      Properties Any → DomainApplication Ref → List (Request (Call Any Ref Conn) Ref)
  unfolding last_node_id
  launch_requests config_property s =
      map
        (λ entry. record {
          node = last_node_id orb s.node_ids entry.1 "";
          handled = entry.0;
          target = entry.0;
          message = Requests.start_launch config_property;
        })
        s.nams

  -- The loop of `startLaunch` over the results: the applications, the references and the errors.
  unfoldable pub launched :
      List (NamResult Ref Conn)
      → DomainApplication Ref
      → List Conn
      → DomainApplication Ref × List Conn × List String
  launched [] s provided = (s, provided, [])
  launched (result ∷ results) s provided =
      let next = record s {
        node_applications = s.node_applications ++ (result.app, result.nam) ∷ [];
        app_node_ids = s.app_node_ids ++ (result.app, result.node) ∷ [];
      } in
      let (t, all, errors) = launched results s provided in
      let taken = launched results next (provided ++ result.provided_reference) in
      if orb.is_nil result.app then (t, all, result.error ∷ errors) else taken

  -- What a call with the references so far answers, the state and the references.
  unfoldable pub start_launch :
      Properties Any
      → List Conn
      → DomainApplication Ref
      → W
      → Outcome Unit × DomainApplication Ref × List Conn × W
  unfolding launch_requests send_all collect launch_handler launched report launch_catch
  start_launch config_property provided s w =
      let handler = launch_handler orb in
      let (results, w') =
        collect orb handler
          (send_all orb handler (launch_requests config_property s) (idle orb handler w)) in
      elim results [
        | none ↦ (blocked, s, provided, w')
        | some list ↦
            let (t, all, errors) = launched list s provided in
            (
              report orb (launch_catch orb start_error s.plan_uuid "startLaunch") start_error
                  s.plan_uuid "captured startLaunch errors:\n" errors,
              t,
              all,
              w',
            )
      ]

  unfoldable pub destroy_requests : DomainApplication Ref → List (Request (Call Any Ref Conn) Ref)
  unfolding find_node_app
  destroy_requests s =
      map
        (λ entry. record {
          node = find_node_app orb s.app_node_ids entry.0;
          handled = entry.1;
          target = entry.1;
          message = Requests.destroy_application entry.0;
        })
        s.node_applications

  unfoldable pub destroy_all : DomainApplication Ref → W → Outcome Unit × W
  unfolding destroy_requests send_all collect destroy_handler errors_of report launch_catch
  destroy_all s w =
      let handler = destroy_handler orb in
      let (results, w') =
        collect orb handler (send_all orb handler (destroy_requests s) (idle orb handler w)) in
      (
        elim results [
          | none ↦ blocked
          | some list ↦
              report orb (launch_catch orb stop_error s.plan_uuid "destroyApplication") stop_error
                s.plan_uuid "captured destroyApplication errors:\n"
                (errors_of (λ result. result.error) list)
        ],
        w',
      )

  unfoldable pub destroy_application : DomainApplication Ref → W → Outcome Unit × W
  unfolding destroy_all
  destroy_application s w =
      if ltb 0 (length s.node_applications) then destroy_all s w else (done tt, w)
