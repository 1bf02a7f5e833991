-- ===== src/LocalityManager/Completed.antt =====
-- Every event that the manager schedules completes, with a result under its own name.
use dancex.Prelude.{
  All, leb→le, ℕ, ◌*◌, ◌≤◌, ◌<◌, List, [], ◌∷◌, ◌++◌, Option, none, some, Bool, true, false, String,
  length, ◌≡◌, refl, sym, ◌∙◌, ap, arith, map, ◌||◌, inl, inr, Option-cases,
}
use native.Mathlib.Numerals.{unary_clauses}
use mathlib.Core.List.{append-nil, append_assoc}
use dancex.Utility.{is_absent}
use dancex.Utility.Exceptions.{UserKind, ExceptionInfo}
use dancex.Split.Plan.{DeploymentPlan}
use dancex.Events.Action.{EventResult, call}
use dancex.Events.Action.Results.{PreCorba, PostCorba, IsAnswered, call-set}
use dancex.Events.Action.Names.{call-Named}
use dancex.Events.Kinds.{
  HandlerCalls, InterceptorCalls, ActionState, ActionEvent, install, endpoint, connect, configured,
  start, passivate, disconnect, remove,
}
use dancex.Events.Scheduler.{
  Scheduler, schedule_event, single_threaded_wait_on_completion, perform_all, time_of, is_spent,
  is_nil, single_threaded_wait_on_completion-performs,
}
use dancex.LocalityManager.{Scheduled}
use dancex.LocalityManager.Performing.{
  Performed, schedule_all, answered, action_of, initial_value, perform, waited, local_wait,
}

schedule_event-open :
    {E : Type 0} (event : E) (scheduler : Scheduler E)
    → scheduler.closed ≡ false
    → (schedule_event event scheduler).1
      ≡ record scheduler { event_queue = scheduler.event_queue ++ event ∷ [] }
unfolding schedule_event
schedule_event-open event scheduler h = ground arith

schedule-all :
    {E : Type 0} (events : List E) (scheduler : Scheduler E)
    → scheduler.closed ≡ false
    → schedule_all events scheduler
      ≡ record scheduler { event_queue = scheduler.event_queue ++ events }
unfolding schedule_all
schedule-all [] scheduler h =
    ap (λ q. record scheduler { event_queue = q }) (sym (append-nil scheduler.event_queue))
schedule-all (event ∷ events) scheduler h =
    ap (schedule_all events) (schedule_event-open event scheduler h)
    ∙ schedule-all events (record scheduler { event_queue = scheduler.event_queue ++ event ∷ [] }) h
    ∙ ap (λ q. record scheduler { event_queue = q })
        (append_assoc scheduler.event_queue (event ∷ []) events)

-- The name of the result of a completed event.
abbrev pub id_of : {Any : Type 0} → Option (EventResult Any) → Option String
id_of none = none
id_of (some result) = some result.id

module _ {Any Obj E W : Type 0} (null : Any) (is_null : Any → Bool) (any_of : E → Option Any)
    (embed : UserKind → ExceptionInfo → Any) (any_of_object : Option Obj → Any)
    (interceptors : List (InterceptorCalls Any E W))
    (fetch : String → Option (HandlerCalls Any E W)) where
  abbrev action : Scheduled Obj → ActionEvent Any E W
  action = action_of null is_null any_of embed any_of_object interceptors fetch

  abbrev step : Scheduled Obj → Performed Any W → Performed Any W
  step = perform null is_null any_of embed any_of_object interceptors fetch

  abbrev value_at : Scheduled Obj → Any
  value_at event =
      initial_value null is_null any_of embed any_of_object interceptors fetch event.kind

  action-valid :
      (event : Scheduled Obj) (s : ActionState Any W) (r : EventResult Any)
      → ((action event).create_valid_result s r).id ≡ r.id
  unfolding action_of install endpoint connect configured start passivate disconnect remove
  action-valid event s r = ground arith

  action-name : (event : Scheduled Obj) → (action event).name ≡ event.name
  unfolding action_of install endpoint connect configured start passivate disconnect remove
  action-name event = ground arith

  module _
      (pre-corba : (event : Scheduled Obj)
        → All (PreCorba null is_null any_of (action event)) interceptors)
      (post-corba : (event : Scheduled Obj)
        → All (PostCorba null is_null any_of (action event)) interceptors)
      (any_of-total : (ex : E) → is_absent (any_of ex) ≡ false) where
    call-holder :
        (event : Scheduled Obj) (s : ActionState Any W)
        → (r : EventResult Any) × ((call null is_null any_of
              (action event)
              interceptors
              fetch
              s).holder
            ≡ some r)
          × (r.id ≡ event.name)
    unfolding IsAnswered
    call-holder event s =
        let set =
          call-set null is_null any_of (action event) interceptors fetch s (pre-corba event)
            (post-corba event) any_of-total in
        elim (Option-cases (call null is_null any_of (action event) interceptors fetch s).holder) [
          | inl e ↦ absurd (ground (arith, (rw e at set.0)))
          | inr (r, e) ↦ (
            r,
            e,
            call-Named null is_null any_of (action event) (action-valid event) interceptors fetch s
                  r e
                ∙ action-name event,
          )
        ]

    perform_all-holders :
        (events : List (Scheduled Obj)) (s : Performed Any W)
        → (holders : List (Option (EventResult Any))) × ((perform_all step
              (λ e t. 0)
              events
              s).holders
            ≡ s.holders ++ holders)
          × (map id_of (answered holders) ≡ map (λ event. some event.name) events)
    unfolding perform
    perform_all-holders [] s = ([], sym (append-nil s.holders), refl)
    perform_all-holders (event ∷ events) s =
        let (r, e, named) =
          call-holder event (record { plan = s.plan; value = value_at event; world = s.world }) in
        let (holders, f, same) = perform_all-holders events (step event s) in
        (
          some r ∷ holders,
          f
              ∙ ap (λ h. (s.holders ++ h ∷ []) ++ holders) e
              ∙ append_assoc s.holders (some r ∷ []) holders,
          ap (λ n. some n ∷ map id_of (answered holders)) named ∙ ap (◌∷◌ (some event.name)) same,
        )

    time_of-le :
        (elapsed : Scheduled Obj → Performed Any W → ℕ) (bound : ℕ)
        (events left : List (Scheduled Obj)) (s : Performed Any W)
        → ((event : Scheduled Obj) (t : Performed Any W) → elapsed event t ≤ bound)
        → time_of step elapsed events s ≤ bound * length (events ++ left)
    time_of-le elapsed bound [] left s h = omega arith
    time_of-le elapsed bound (event ∷ events) left s h =
        let a = h event s in
        let b = time_of-le elapsed bound events left (step event s) h in
        simp unary_clauses (omega arith)

    -- Events that are left would have used up the time.
    none-left :
        (elapsed : Scheduled Obj → Performed Any W → ℕ) (bound delay : ℕ)
        (events performed left : List (Scheduled Obj)) (s : Performed Any W)
        → ((event : Scheduled Obj) (t : Performed Any W) → elapsed event t ≤ bound)
        → bound * length events < delay
        → performed ++ left ≡ events
        → (is_nil left || is_spent step elapsed (some delay) (time_of step elapsed performed s))
          ≡ true
        → left ≡ []
    none-left elapsed bound delay events performed [] s fast time split up = refl
    none-left elapsed bound delay events performed (event ∷ left) s fast time split up =
        let used = time_of-le elapsed bound performed (event ∷ left) s fast in
        let same = ap (λ l. bound * length l) split in
        let late = leb→le delay (time_of step elapsed performed s) up in absurd (omega arith)

    -- Where interceptors throw CORBA exceptions only, an Any can be made of each exception, no
    -- event takes longer than a bound, and the delay is longer than all events at that bound, the
    -- waiting of the locality manager ends with an empty queue and a result for each scheduled
    -- event, in their order, under the name of the event.
    pub local_wait-completes :
        (elapsed : Scheduled Obj → Performed Any W → ℕ) (bound delay : ℕ)
        (plan : DeploymentPlan Any) (events : List (Scheduled Obj)) (w : W)
        → ((event : Scheduled Obj) (t : Performed Any W) → elapsed event t ≤ bound)
        → bound * length events < delay
        → let (results, after, queue, u) =
            local_wait null is_null any_of embed any_of_object interceptors fetch elapsed delay plan
              events
              ([], w) in
          (map id_of results ≡ map (λ event. some event.name) events) × (queue ≡ [])
    unfolding local_wait
    local_wait-completes elapsed bound delay plan events w fast time =
        let s : Performed Any W = record { plan = plan; world = w; holders = [] } in
        let scheduler : Scheduler (Scheduled Obj) = record {
          event_queue = events;
          closed = false;
          multithread = false;
        } in
        let (performed, left, run, split, up, _) =
          single_threaded_wait_on_completion-performs step elapsed (some delay) scheduler s in
        let nothing = none-left elapsed bound delay events performed left s fast time split up in
        let all : performed ≡ events =
          sym (append-nil performed) ∙ ap (◌++◌ performed) (sym nothing) ∙ split in
        let (holders, same, names) = perform_all-holders performed s in
        let done =
          ap
            (λ q.
              waited plan ([], w)
                (single_threaded_wait_on_completion step elapsed (some delay) q s))
            (schedule-all events (record { event_queue = []; closed = false; multithread = false })
              refl)
          ∙ ap (waited plan ([], w)) run in
        (
          ap (λ r. map id_of r.0) done
              ∙ ap (λ l. map id_of (answered l)) same
              ∙ names
              ∙ ap (map (λ event. some event.name)) all,
          ap (λ r. r.2) done ∙ nothing,
        )
