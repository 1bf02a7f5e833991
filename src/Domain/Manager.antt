-- ===== src/Domain/Manager.antt =====
-- dancex11/domain_deployment_handler/dancex11_ddh_application_manager_impl.cpp: the operations of
-- `DomainApplicationManager_Impl`. `locate_node` of the node locator and the POA are parameters:
-- `activate` gives the reference for a servant that is not active. All calls use the root POA, which
-- activates a servant where its reference is asked for.
use dancex.Prelude.{
  ℕ, zero, suc, List, [], ◌∷◌, ◌++◌, ◌>>=◌, Option, none, some, String, if◌then◌else◌, length,
}
use dancex.Utility.{Properties}
use dancex.Utility.Exceptions.{start_error, stop_error}
use dancex.Split.Node.{node_splitter}
use dancex.Split.Copying.{split_plan}
use dancex.Domain.Requests.{
  Fault, user, system, invalid_reference, foreign, Call, Orb, send_all, collect, idle,
}
use dancex.Domain.Replies.{Outcome, done, throws, blocked, errors_of, report}
use dancex.Domain.Application
use dancex.Domain.Application.{new_domain_application}
use dancex.Domain.Nodes.{
  Running, DomainApplicationManager, prepare_handler, destroy_manager_handler, plan_requests,
  prepared, manager_requests,
}

-- `servant_to_reference`
unfoldable pub reference_of : {Ref W : Type 0} → (W → Ref × W) → Option Ref → W → Ref × W
reference_of activate none w = activate w
reference_of activate (some ref) w = (ref, w)

-- What stays of an entry whose application was destroyed, or not.
abbrev pub kept : {A : Type 0} → Outcome Unit → A → List A
kept (done u) entry = []
kept _ entry = entry ∷ []

module _ {Any Ref Conn W : Type 0} (orb : Orb (Call Any Ref Conn) Ref Conn W)
    (activate : W → Ref × W) where
  -- The handlers of `startLaunch`.
  unfoldable pub start_launch_catch : String → Fault → Fault
  start_launch_catch uuid foreign =
      user start_error (record { name = uuid; reason = "Unknown C++ exception" })
  start_launch_catch uuid ex = user start_error (record { name = uuid; reason = orb.print ex })

  unfoldable pub start_launch :
      Properties Any
      → List Conn
      → DomainApplicationManager Any Ref
      → W
      → Outcome Ref × DomainApplicationManager Any Ref × List Conn × W
  unfolding Application.start_launch start_launch_catch
  start_launch config_property provided s w =
      let (outcome, app, all, w') =
        Application.start_launch orb config_property provided
          (new_domain_application s.plan.uuid s.sub_app_mgr s.node_ids) w in
      let (ref, active) = activate w' in
      elim outcome [
        | done u ↦ (
          done ref,
          record s { running_app = s.running_app ++ (some ref, app) ∷ [] },
          all,
          active,
        )
        | throws ex ↦ (
          throws (start_launch_catch s.plan.uuid ex),
          record s { running_app = s.running_app ++ (none, app) ∷ [] },
          all,
          w',
        )
        | blocked ↦ (blocked, record s { running_app = s.running_app ++ (none, app) ∷ [] }, all, w')
      ]

  -- The search of `destroyApplication`; `none` where no application is equivalent.
  unfoldable pub destroy_in :
      Ref → List (Running Ref) → W → Option (Outcome Unit) × List (Running Ref) × W
  unfolding reference_of Application.destroy_application
  destroy_in app [] w = (none, [], w)
  destroy_in app ((active, da) ∷ running) w =
      let (ref, w') = reference_of activate active w in
      let (outcome, destroyed) = Application.destroy_application orb da w' in
      let (found, rest, searched) = destroy_in app running w' in
      if orb.is_equivalent ref app
      then (some outcome, kept outcome (none, da) ++ running, destroyed)
      else (found, (some ref, da) ∷ rest, searched)

  -- The handlers of `destroyApplication`.
  unfoldable pub destroy_catch : Fault → Fault
  destroy_catch (system text) = system text
  destroy_catch (user stop_error ex) = user stop_error ex
  destroy_catch (user kind ex) =
      user stop_error
        (record { name = "DomainApplicatoinManager"; reason = orb.print (user kind ex) })
  destroy_catch invalid_reference =
      user stop_error
        (record { name = "DomainApplicatoinManager"; reason = orb.print invalid_reference })
  destroy_catch foreign = user stop_error (record {
    name = "DomainApplicatoinManager";
    reason = "Unknown C++ exception in destroyApplication";
  })

  unfoldable pub caught : Option (Outcome Unit) → Outcome Unit
  unfolding destroy_catch
  caught none = done tt
  caught (some (done u)) = done tt
  caught (some (throws ex)) = throws (destroy_catch ex)
  caught (some blocked) = blocked

  unfoldable pub destroy_application :
      Ref → List (Running Ref) → W → Outcome Unit × List (Running Ref) × W
  unfolding destroy_in caught
  destroy_application app running w =
      let (found, running', w') = destroy_in app running w in (caught found, running', w')

  unfoldable pub get_applications : List (Running Ref) → W → List Ref × List (Running Ref) × W
  unfolding reference_of
  get_applications [] w = ([], [], w)
  get_applications ((active, da) ∷ running) w =
      let (ref, w') = reference_of activate active w in
      let (refs, running', w'') = get_applications running w' in
      (ref ∷ refs, (some ref, da) ∷ running', w'')

  -- `preparePlan`, by the function that finds the manager of a node. It gives nothing where
  -- `split_plan` is undefined.
  unfoldable pub prepare_plan :
      (String → Any)
      → (String → ℕ → String)
      → (String → Option Ref)
      → DomainApplicationManager Any Ref
      → W
      → Option (Outcome Unit × DomainApplicationManager Any Ref × W)
  unfolding split_plan plan_requests send_all collect prepare_handler prepared report
  prepare_plan embed generate_uuid locate_node s w = do
    plans ← split_plan node_splitter embed generate_uuid s.plan ""
    let (missing, requests) = plan_requests orb locate_node plans
    let handler = prepare_handler orb
    let sent = send_all orb handler requests (idle orb handler w)
    let (results, w') = collect orb handler sent
    some (elim missing [
      | some key ↦ (
        throws (user start_error (record { name = key; reason = "NodeManager not found" })),
        s,
        sent.world,
      )
      | none ↦ elim results [
        | none ↦ (blocked, s, w')
        | some list ↦
            let (t, errors) = prepared orb list s in
            (
              report orb (λ ex. ex) start_error s.plan.uuid "captured preparePlan errors:\n" errors,
              t,
              w',
            )
      ]
    ])

  -- The loop of `destroyManager` over the applications, whose exceptions end it. It gives nothing
  -- where it waits for ever, or needs more rounds.
  unfoldable pub destroy_running : ℕ → List (Running Ref) → W → Option (List (Running Ref) × W)
  unfolding reference_of destroy_application
  destroy_running zero running w = none
  destroy_running (suc rounds) [] w = some ([], w)
  destroy_running (suc rounds) ((active, da) ∷ running) w =
      let (ref, w') = reference_of activate active w in
      let (outcome, running', destroyed) = destroy_application ref ((some ref, da) ∷ running) w' in
      let rest = destroy_running rounds running' destroyed in
      elim outcome [ done u ↦ rest | throws ex ↦ some (running', destroyed) | blocked ↦ none ]

  -- The requests to the node managers.
  unfoldable pub destroy_nodes : DomainApplicationManager Any Ref → W → Outcome Unit × W
  unfolding manager_requests send_all collect destroy_manager_handler errors_of report
  destroy_nodes s w =
      let handler = destroy_manager_handler orb in
      let (results, w') =
        collect orb handler (send_all orb handler (manager_requests orb s) (idle orb handler w)) in
      (
        elim results [
          | none ↦ blocked
          | some list ↦
              report orb (λ ex. ex) stop_error s.plan.uuid "captured destroyManager errors:\n"
                (errors_of (λ result. result.error) list)
        ],
        w',
      )

  unfoldable pub destroy_manager :
      DomainApplicationManager Any Ref → W → Outcome Unit × DomainApplicationManager Any Ref × W
  unfolding destroy_running destroy_nodes
  destroy_manager s w = elim (destroy_running (suc (length s.running_app)) s.running_app w) [
    | none ↦ (blocked, s, w)
    | some (running, w') ↦
        let t = record s { running_app = running } in
        let (outcome, w'') = destroy_nodes t w' in (outcome, t, w'')
  ]
