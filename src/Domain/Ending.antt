-- ===== src/Domain/Ending.antt =====
-- How `destroyManager` of a domain application manager ends.
use dancex.Prelude.{
  ℕ, zero, suc, List, [], ◌∷◌, ◌++◌, Option, none, some, true, false, String, ◌≡◌, refl, ap, ◌∙◌,
  ◌<◌, length, length-map, All, is_empty, str_append, arith, ◌⊎◌, inl, inr,
}
use dancex.Utility.Exceptions.{stop_error}
use dancex.Events.Counter.{u32_mod}
use dancex.Domain.Requests.{Fault, user, Call, Orb}
use dancex.Domain.Completes.{Replies}
use dancex.Domain.Errors.{HasTexts, Reports, unless_errors, starting-IsText}
use dancex.Domain.Replies.{Outcome, done, throws, blocked, DomainApplication, report}
use dancex.Domain.Texts.{starting, stop_label}
use dancex.Domain.Application
use dancex.Domain.Reports.{plain, handled, requests-Reports}
use dancex.Domain.Destroyed.{destroy_application-Reports}
use dancex.Domain.Nodes.{
  Running, DomainApplicationManager, destroy_manager_handler, destroy_manager_excep,
  manager_requests,
}
use dancex.Domain.Manager.{
  reference_of, kept, caught, destroy_in, destroy_application, destroy_running, destroy_nodes,
  destroy_manager,
}
use dancex.Domain.Prepared.{report-plain}

unless_errors-cases :
    (exception : String → Fault) (errors : List String)
    → (unless_errors exception errors ≡ done tt)
      ⊎ ((text : String) × (unless_errors exception errors ≡ throws (exception text)))
unless_errors-cases exception [] = inl refl
unless_errors-cases exception (err ∷ errors) = inr (_, refl)

-- The requests to the node applications are fewer than the counter can hold.
abbrev pub IsCounted : {Ref : Type 0} → Running Ref → Type 0
IsCounted (active, da) = length da.node_applications < u32_mod

module _ {Any Ref Conn W : Type 0} (orb : Orb (Call Any Ref Conn) Ref Conn W)
    (activate : W → Ref × W) where
  -- The applications that `destroyManager` leaves, and the world behind them: each is destroyed, up to
  -- the first whose `destroyApplication` throws, which stays, but is not active any more.
  abbrev pub Left : List (Running Ref) → W → List (Running Ref) → W → Type 0
  Left [] w left w' = (left ≡ []) × (w' ≡ w)
  Left ((active, da) ∷ running) w left w' =
      let (ref, active_w) = reference_of activate active w in
      let (outcome, destroyed) = Application.destroy_application orb da active_w in
      ((outcome ≡ done tt) × Left running destroyed left w')
      ⊎ ((reason : String) × (outcome
            ≡ throws (user stop_error (record { name = da.plan_uuid; reason = reason })))
          × (left ≡ (none, da) ∷ running)
          × (w' ≡ destroyed))

  -- An application is destroyed, or the operation ends with a `StopError` that names the plan.
  pub destroy_application-cases :
      (da : DomainApplication Ref) (w : W)
      → Replies orb
      → IsCounted (none, da)
      → ((Application.destroy_application orb da w).0 ≡ done tt)
        ⊎ ((reason : String) × ((Application.destroy_application orb da w).0
              ≡ throws (user stop_error (record { name = da.plan_uuid; reason = reason }))))
  destroy_application-cases da w r b =
      let (once, e) = destroy_application-Reports orb r da w b in
      elim (unless_errors-cases
        (handled orb.print stop_error da.plan_uuid "destroyApplication"
          "captured destroyApplication errors:\n")
        _) [ inl well ↦ inl (e ∙ well) | inr (text, ill) ↦ inr (_, e ∙ ill) ]

  pub destroy_application-front :
      (ref : Ref) (da : DomainApplication Ref) (running : List (Running Ref)) (w : W)
      → orb.is_equivalent ref ref ≡ true
      → destroy_application orb activate ref ((some ref, da) ∷ running) w ≡ (
          let (outcome, w') = Application.destroy_application orb da w in
          (caught orb activate (some outcome), kept outcome (none, da) ++ running, w'))
  unfolding destroy_application destroy_in caught
  destroy_application-front ref da running w h = rw (h, destroy_in) refl

  -- How the loop of `destroyManager` goes on.
  abbrev go_on : ℕ → Outcome Unit × List (Running Ref) × W → Option (List (Running Ref) × W)
  go_on rounds (outcome, running, w) = elim outcome [
    | done u ↦ destroy_running orb activate rounds running w
    | throws ex ↦ some (running, w)
    | blocked ↦ none
  ]

  destroy_running-go_on :
      (rounds : ℕ) (active : Option Ref) (da : DomainApplication Ref) (running : List (Running Ref))
      (w : W)
      → ((ref : Ref) → orb.is_equivalent ref ref ≡ true)
      → destroy_running orb activate (suc rounds) ((active, da) ∷ running) w ≡ (
          let (ref, active_w) = reference_of activate active w in
          let (outcome, destroyed) = Application.destroy_application orb da active_w in
          go_on rounds
            (caught orb activate (some outcome), kept outcome (none, da) ++ running, destroyed))
  unfolding destroy_running
  destroy_running-go_on rounds active da running w h =
      let (ref, active_w) = reference_of activate active w in
      ap (go_on rounds) (destroy_application-front ref da running active_w (h ref))

  destroy_running-ends :
      (rounds : ℕ) (running : List (Running Ref)) (w : W)
      → Replies orb
      → ((ref : Ref) → orb.is_equivalent ref ref ≡ true)
      → All IsCounted running
      → length running < rounds
      → (left : List (Running Ref)) × (w' : W) × (destroy_running orb activate rounds running w
          ≡ some (left, w'))
        × Left running w left w'
  unfolding destroy_running caught
  destroy_running-ends zero running w r h b l = absurd (omega arith)
  destroy_running-ends (suc rounds) [] w r h b l = ([], w, refl, (refl, refl))
  destroy_running-ends (suc rounds) ((active, da) ∷ running) w r h (b, bs) l =
      let (ref, active_w) = reference_of activate active w in
      let (outcome, destroyed) = Application.destroy_application orb da active_w in
      let step = destroy_running-go_on rounds active da running w h in
      let by_outcome = λ (o : Outcome Unit).
        go_on rounds (caught orb activate (some o), kept o (none, da) ++ running, destroyed) in
      elim (destroy_application-cases da active_w r b) [
        | inl well ↦
            let (left, w', same, ends) =
              destroy_running-ends rounds running destroyed r h bs (omega arith) in
            (left, w', step ∙ ap by_outcome well ∙ same, inl (well, ends))
        | inr (reason, ill) ↦ (
          (none, da) ∷ running,
          destroyed,
          step ∙ ap by_outcome ill,
          inr (reason, ill, refl, refl),
        )
      ]

  destroy_manager_excep-IsText :
      (node : String) (ex : Fault) → is_empty (destroy_manager_excep orb.print node ex) ≡ false
  unfolding destroy_manager_excep
  destroy_manager_excep-IsText node ex =
      starting-IsText orb.print node
        (str_append (stop_label ex) " exception executing destroyManager")
        "unknown exception executing destroyManager" ex

  destroy_manager_handler-HasTexts :
      HasTexts
        (destroy_manager_handler orb)
        (λ result. result.error)
        (λ node.
          starting orb.print node "CORBA exception starting destroyManager"
            "unknown exception starting destroyManager")
        (destroy_manager_excep orb.print)
  unfolding destroy_manager_handler
  destroy_manager_handler-HasTexts = record {
    refused_eq = λ request ex. refl;
    raised_eq = λ request ex. refl;
    answered_eq = λ request app provided. refl;
    refused-IsText = λ node ex.
        starting-IsText orb.print node "CORBA exception starting destroyManager"
          "unknown exception starting destroyManager" ex;
    raised-IsText = destroy_manager_excep-IsText;
  }

  length-manager_requests :
      (s : DomainApplicationManager Any Ref)
      → length (manager_requests orb s) ≡ length s.sub_app_mgr
  unfolding manager_requests
  length-manager_requests s = length-map _ s.sub_app_mgr

  abbrev pub NodeReports : DomainApplicationManager Any Ref → W → Outcome Unit → Type 0
  NodeReports s w outcome =
      Reports orb
        (λ node.
          starting orb.print node "CORBA exception starting destroyManager"
            "unknown exception starting destroyManager")
        (destroy_manager_excep orb.print) (manager_requests orb s) w outcome
        (unless_errors (plain stop_error s.plan.uuid "captured destroyManager errors:\n"))

  destroy_nodes-NodeReports :
      (s : DomainApplicationManager Any Ref) (w : W)
      → Replies orb
      → length s.sub_app_mgr < u32_mod
      → NodeReports s w (destroy_nodes orb activate s w).0
  unfolding destroy_nodes
  destroy_nodes-NodeReports s w r b =
      let (once, e) =
        requests-Reports orb r (destroy_manager_handler orb) (λ result. result.error)
          (λ node.
            starting orb.print node "CORBA exception starting destroyManager"
              "unknown exception starting destroyManager")
          (destroy_manager_excep orb.print) (manager_requests orb s)
          (report orb (λ ex. ex) stop_error s.plan.uuid "captured destroyManager errors:\n") w
          destroy_manager_handler-HasTexts (omega (arith, length-manager_requests s)) in
      (once, e ∙ report-plain orb stop_error s.plan.uuid "captured destroyManager errors:\n" _)

  -- Where each pending request is replied to once, a reference is equivalent to itself, and the
  -- node applications of each application and the managers are fewer than 2 ^ 32, destroyManager
  -- of a domain application manager ends. Its applications are destroyed in order, up to the
  -- first for which that throws, which is a StopError that names its plan: that one and those
  -- behind it are left, or none is; nothing else of the state is changed. The nodes' managers are
  -- asked to destroy theirs in both cases, a request being refused exactly where sending it
  -- throws and else replied to by the ORB, and a StopError for the plan is thrown exactly where
  -- there is a refusal or an exception there, with a text for each.
  pub destroy_manager-NodeReports :
      (s : DomainApplicationManager Any Ref) (w : W)
      → Replies orb
      → ((ref : Ref) → orb.is_equivalent ref ref ≡ true)
      → All IsCounted s.running_app
      → length s.sub_app_mgr < u32_mod
      → (left : List (Running Ref)) × (destroyed : W) × (outcome : Outcome Unit) × (w' : W)
        × (destroy_manager orb activate s w ≡ (outcome, record s { running_app = left }, w'))
        × Left s.running_app w left destroyed
        × NodeReports s destroyed outcome
  unfolding destroy_manager manager_requests
  destroy_manager-NodeReports s w r h bs b =
      let (left, w', same, ends) =
        destroy_running-ends (suc (length s.running_app)) s.running_app w r h bs (omega arith) in
      let t = record s { running_app = left } in
      (
        left,
        w',
        (destroy_nodes orb activate t w').0,
        (destroy_nodes orb activate t w').1,
        rw (same, destroy_manager) refl,
        ends,
        destroy_nodes-NodeReports t w' r b,
      )
