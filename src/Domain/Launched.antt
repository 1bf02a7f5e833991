-- ===== src/Domain/Launched.antt =====
-- What `startLaunch` of a domain application leaves: the applications of the nodes that have launched.
use mathlib.Core.List.{Perm, append_assoc, append-nil}
use dancex.Prelude.{
  List, [], ◌∷◌, ◌++◌, true, String, ◌≡◌, refl, ap, ◌∙◌, sym, ◌<◌, map, length, length-map, arith,
  concat_map, if◌then◌else◌, Bool-cases, inl, inr,
}
use dancex.Utility.{Properties}
use dancex.Utility.Exceptions.{start_error}
use dancex.Events.Counter.{u32_mod}
use dancex.Domain.Requests.{Fault, Call, Request, Answer, answered, raised, Orb}
use dancex.Domain.Completes.{refusals_of, replies_of, Replies, collect-Ended, refusal, result}
use dancex.Domain.Errors.{refused_text, unless_errors}
use dancex.Domain.Replies.{
  Outcome, NamResult, DomainApplication, launch_handler, launch_catch, report,
}
use dancex.Domain.Texts.{starting, start_launch_excep}
use dancex.Domain.Application.{launch_requests, launched, start_launch}
use dancex.Domain.Reports.{handled, report-handled}

module _ {Any Ref Conn W : Type 0} (orb : Orb (Call Any Ref Conn) Ref Conn W) where
  abbrev pub Reply : Type 0
  Reply = Request (Call Any Ref Conn) Ref × Answer Ref Conn

  -- What a reply adds: the application with its manager, its node, its references, or an error.
  abbrev pub application_of : Reply → List (Ref × Ref)
  application_of (request, answered app provided) =
      if orb.is_nil app then [] else (app, request.handled) ∷ []
  application_of (request, raised ex) = []

  abbrev pub node_of : Reply → List (Ref × String)
  node_of (request, answered app provided) = if orb.is_nil app then [] else (app, request.node) ∷ []
  node_of (request, raised ex) = []

  abbrev pub references_of : Reply → List Conn
  references_of (request, answered app provided) = if orb.is_nil app then [] else provided
  references_of (request, raised ex) = []

  abbrev pub error_of : Reply → List String
  error_of (request, answered app provided) = if orb.is_nil app then "" ∷ [] else []
  error_of (request, raised ex) = start_launch_excep orb.print request.node ex ∷ []

  abbrev pub refused_launch : Request (Call Any Ref Conn) Ref × Fault → String
  refused_launch = refused_text λ node.
      starting orb.print node "CORBA exception starting startLaunch"
        "unknown C++ exception starting startLaunch"

  abbrev pub with_applications : List Reply → DomainApplication Ref → DomainApplication Ref
  with_applications replies s = record s {
    node_applications = s.node_applications ++ concat_map application_of replies;
    app_node_ids = s.app_node_ids ++ concat_map node_of replies;
  }

  launched-replies :
      (replies : List Reply) (s : DomainApplication Ref) (provided : List Conn)
      → orb.is_nil orb.nil ≡ true
      → launched orb (map (result (launch_handler orb)) replies) s provided ≡ (
        with_applications replies s,
        provided ++ concat_map references_of replies,
        concat_map error_of replies,
      )
  unfolding launched launch_handler
  launched-replies [] s provided n = λ i. (
    record s {
      node_applications = sym (append-nil s.node_applications) i;
      app_node_ids = sym (append-nil s.app_node_ids) i;
    },
    sym (append-nil provided) i,
    [],
  )
  launched-replies ((request, raised ex) ∷ replies) s provided n =
      rw (n, launched-replies replies s provided n, launched) refl
  launched-replies ((request, answered app all) ∷ replies) s provided n =
      elim (Bool-cases (orb.is_nil app)) [
        | inl e ↦ rw (e, launched-replies replies s provided n, launched) refl
        | inr e ↦
            rw (e, launched)
              (launched-replies replies
                  (record s {
                    node_applications = s.node_applications ++ (app, request.handled) ∷ [];
                    app_node_ids = s.app_node_ids ++ (app, request.node) ∷ [];
                  })
                  (provided ++ all) n
                ∙ λ i. (
                  record s {
                    node_applications =
                        append_assoc s.node_applications ((app, request.handled) ∷ [])
                          (concat_map application_of replies) i;
                    app_node_ids =
                        append_assoc s.app_node_ids ((app, request.node) ∷ [])
                          (concat_map node_of replies) i;
                  },
                  append_assoc provided all (concat_map references_of replies) i,
                  concat_map error_of replies,
                ))
      ]

  launched-refusals :
      (refusals : List (Request (Call Any Ref Conn) Ref × Fault)) (rest : List (NamResult Ref Conn))
      (s : DomainApplication Ref) (provided : List Conn)
      → orb.is_nil orb.nil ≡ true
      → launched orb (map (refusal (launch_handler orb)) refusals ++ rest) s provided ≡ (
          let (t, all, errors) = launched orb rest s provided in
          (t, all, map refused_launch refusals ++ errors))
  unfolding launched launch_handler
  launched-refusals [] rest s provided n = refl
  launched-refusals ((request, ex) ∷ refusals) rest s provided n =
      rw (n, launched-refusals refusals rest s provided n, launched) refl

  abbrev pub launch_refusals :
      Properties Any → DomainApplication Ref → W → List (Request (Call Any Ref Conn) Ref × Fault)
  launch_refusals config_property s = refusals_of orb (launch_requests orb config_property s)

  abbrev pub launch_replies : Properties Any → DomainApplication Ref → W → List Reply
  launch_replies config_property s = replies_of orb (launch_requests orb config_property s)

  -- How `startLaunch` ends by what the ORB refuses and replies, and what it leaves.
  pub record Launches (config_property : Properties Any) (provided : List Conn)
      (s : DomainApplication Ref) (w : W) (ended : Outcome Unit × DomainApplication Ref × List Conn)
      : Type 0 where
    pub once :
        Perm
          (map (λ a. a.0) (launch_refusals config_property s w)
            ++ map (λ a. a.0) (launch_replies config_property s w))
          (launch_requests orb config_property s)
    pub outcome_eq :
        ended.0
        ≡ unless_errors
            (handled orb.print start_error s.plan_uuid "startLaunch"
              "captured startLaunch errors:\n")
            (map refused_launch (launch_refusals config_property s w)
              ++ concat_map error_of (launch_replies config_property s w))
    pub state_eq : ended.1 ≡ with_applications (launch_replies config_property s w) s
    pub references_eq :
        ended.2 ≡ provided ++ concat_map references_of (launch_replies config_property s w)

  length-launch_requests :
      (config_property : Properties Any) (s : DomainApplication Ref)
      → length (launch_requests orb config_property s) ≡ length s.nams
  unfolding launch_requests
  length-launch_requests config_property s = length-map _ s.nams

  -- Where each pending request is replied to once, nil is nil, and there are fewer than 2 ^ 32
  -- managers, startLaunch of a domain application ends. The requests are sent one after the
  -- other; those for which sending throws are refused, each of the others has one of the replies
  -- that the ORB hands over, and no other does. The applications that are not nil are appended
  -- with their managers and nodes, their references to those passed in, in the order of the
  -- replies, and it throws a StartError exactly where there is an error, with a text for each
  -- refusal, each exception and each nil application.
  pub start_launch-Launches :
      (config_property : Properties Any) (provided : List Conn) (s : DomainApplication Ref) (w : W)
      → Replies orb
      → orb.is_nil orb.nil ≡ true
      → length s.nams < u32_mod
      → Launches config_property provided s w (
          let (outcome, t, all, w') = start_launch orb config_property provided s w in
          (outcome, t, all))
  unfolding start_launch
  start_launch-Launches config_property provided s w r n b =
      let requests = launch_requests orb config_property s in
      let e =
        collect-Ended orb (launch_handler orb) requests w r
          (omega (arith, length-launch_requests config_property s)) in
      let refusals = launch_refusals config_property s w in
      let replies = launch_replies config_property s w in
      let taken =
        launched-refusals refusals (map (result (launch_handler orb)) replies) s provided n
        ∙ ap (λ l. let (t, all, errors) = l in (t, all, map refused_launch refusals ++ errors))
            (launched-replies replies s provided n) in
      record {
        once = e.once;
        outcome_eq =
            rw (e.results_eq, start_launch)
              (ap
                  (λ l.
                    report orb (launch_catch orb start_error s.plan_uuid "startLaunch") start_error
                      s.plan_uuid "captured startLaunch errors:\n" l.2)
                  taken
                ∙ report-handled orb r start_error s.plan_uuid "startLaunch"
                    "captured startLaunch errors:\n" _);
        state_eq = rw (e.results_eq, start_launch) (ap (λ l. l.0) taken);
        references_eq = rw (e.results_eq, start_launch) (ap (λ l. l.1) taken);
      }
