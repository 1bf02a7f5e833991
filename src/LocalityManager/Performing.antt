-- ===== src/LocalityManager/Performing.antt =====
-- How the scheduler of `LocalityManager_i`, which has no threads, performs the events: the interface
-- `Runtime` filled by `Action_Base::call` of the event classes and by
-- `single_threaded_wait_on_completion`.
use dancex.Prelude.{
  ℕ, zero, suc, List, [], ◌∷◌, ◌++◌, Option, none, some, Bool, false, String, length,
}
use dancex.Utility.Exceptions.{UserKind, ExceptionInfo}
use dancex.Split.Plan.{DeploymentPlan}
use dancex.Events.Action.{EventResult, call}
use dancex.Events.Kinds.{
  HandlerCalls, InterceptorCalls, ActionEvent, install, endpoint, connect, configured, start,
  passivate, disconnect, remove,
}
use dancex.Events.Scheduler.{Scheduler, schedule_event, single_threaded_wait_on_completion}
use dancex.LocalityManager.{
  EventKind, install_instance, instance_configured, start_instance, passivate_instance,
  remove_instance, endpoint_reference, disconnect_instance, connect_instance, Scheduled,
}

-- The plan, the world, and what the futures of the events performed so far hold.
pub record Performed (Any W : Type 0) : Type 0 where
  pub plan : DeploymentPlan Any
  pub world : W
  pub holders : List (Option (EventResult Any))

-- The scheduling of the events, one after the other.
unfoldable pub schedule_all : {E : Type 0} → List E → Scheduler E → Scheduler E
unfolding schedule_event
schedule_all [] scheduler = scheduler
schedule_all (event ∷ events) scheduler = schedule_all events (schedule_event event scheduler).1

-- The futures that are set: only they reach the completion.
abbrev pub answered :
    {Any : Type 0} → List (Option (EventResult Any)) → List (Option (EventResult Any))
answered [] = []
answered (none ∷ holders) = answered holders
answered (some result ∷ holders) = some result ∷ answered holders

abbrev pub drop {ℓ} : {A : Type ℓ} → ℕ → List A → List A
drop zero xs = xs
drop (suc n) [] = []
drop (suc n) (x ∷ xs) = drop n xs

-- What the waiting leads to, with `queue` left from an earlier wait; it never runs out of fuel.
abbrev pub waited :
    {Any Obj W : Type 0}
    → DeploymentPlan Any
    → List (Scheduled Obj) × W
    → Option (Bool × Scheduler (Scheduled Obj) × Performed Any W)
    → List (Option (EventResult Any)) × DeploymentPlan Any × List (Scheduled Obj) × W
waited plan (queue, w) none = ([], plan, queue, w)
waited plan (queue, w) (some (result, scheduler, s)) =
    (answered (drop (length queue) s.holders), s.plan, scheduler.event_queue, s.world)

module _ {Any Obj E W : Type 0} (null : Any) (is_null : Any → Bool) (any_of : E → Option Any)
    (embed : UserKind → ExceptionInfo → Any) (any_of_object : Option Obj → Any)
    (interceptors : List (InterceptorCalls Any E W))
    (fetch : String → Option (HandlerCalls Any E W)) where
  unfoldable pub action_of : Scheduled Obj → ActionEvent Any E W
  unfolding install endpoint connect configured start passivate disconnect remove
  action_of event = elim event.kind [
    | install_instance ↦ install null embed event.name event.instance_type event.ref
    | endpoint_reference ↦ endpoint null embed event.name event.instance_type event.ref
    | connect_instance reference ↦ connect null embed event.name event.instance_type event.ref
    | instance_configured ↦ configured null embed event.name event.instance_type event.ref
    | start_instance ↦ start null embed event.name event.instance_type event.ref
    | passivate_instance ↦ passivate null embed event.name event.instance_type event.ref
    | disconnect_instance ↦ disconnect null embed event.name event.instance_type event.ref
    | remove_instance ↦ remove null embed event.name event.instance_type event.ref
  ]

  -- The member of the event at its construction.
  abbrev pub initial_value : EventKind Obj → Any
  initial_value (connect_instance reference) = any_of_object reference
  initial_value _ = null

  unfoldable pub perform : Scheduled Obj → Performed Any W → Performed Any W
  unfolding call action_of
  perform event s =
      let called =
        call null is_null any_of (action_of event) interceptors fetch
          (record { plan = s.plan; value = initial_value event.kind; world = s.world }) in
      record {
        plan = called.after.plan;
        world = called.after.world;
        holders = s.holders ++ called.holder ∷ [];
      }

  -- `wait_on_completion` and `completed_events` for events that have just been scheduled; the events
  -- that an earlier wait left in the queue come first, and are not of this completion. (The two waits of
  -- `finishLaunch` share a completion, so that for the second one this holds where the first has left
  -- no event.)
  unfoldable pub local_wait :
      (Scheduled Obj → Performed Any W → ℕ)
      → ℕ
      → DeploymentPlan Any
      → List (Scheduled Obj)
      → List (Scheduled Obj) × W
      → List (Option (EventResult Any)) × DeploymentPlan Any × List (Scheduled Obj) × W
  unfolding schedule_all perform single_threaded_wait_on_completion
  local_wait elapsed delay plan events (queue, w) =
      waited plan (queue, w)
        (single_threaded_wait_on_completion perform elapsed (some delay)
          (schedule_all events
            (record { event_queue = queue; closed = false; multithread = false }))
          (record { plan = plan; world = w; holders = [] }))
