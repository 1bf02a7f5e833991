-- ===== src/LocalityManager/Keeping.antt =====
-- Actions of `LocalityManager_i` that end in no undefined read and keep the manager valid: how they
-- chain, and the phases over the instances.
use dancex.Prelude.{
  ◌≡◌, ℕ, List, [], ◌∷◌, ◌++◌, Option, none, some, Bool, true, false, String, length, ◌≢◌, refl,
  arith,
}
use mathlib.Core.List.{reverse}
use dancex.Sorter.{Outcome, ordered, invalid_install_order, out_of_fuel}
use dancex.Plugins.{PluginManager, get_installation_order}
use dancex.Events.Action.{EventResult}
use dancex.Split.Plan.{DeploymentPlan}
use dancex.LocalityManager.{
  Scheduled, LocalityManager, EventKind, install_instance, instance_configured, start_instance,
  passivate_instance, remove_instance, ErrorKind, start_error, stop_error, invalid_property, Result,
  done, raised, install_order_error, undefined, diverged, Provided,
}
use dancex.LocalityManager.Phase.{Runtime, propagate, check_results, collect_results, reference_of}
use dancex.LocalityManager.Actions.{Action, ◌>>=◌}
use dancex.LocalityManager.Launch.{
  configured_instances, start_if, instance_phase, install_errors, install_instances, from_outcome,
  read_order, start,
}
use dancex.LocalityManager.Teardown.{remove_instances, stop}
use dancex.LocalityManager.Dispatch.{IsInRange, instance_phase-schedules}
use dancex.LocalityManager.Bounds.{IsValidPlan}

module _ {Any Obj S : Type 0} (runtime : Runtime Any Obj S) where
  pub record IsValid (m : LocalityManager Any) : Type 0 where
    pub plan_valid : IsValidPlan runtime.extract_text m.plan
    pub in_range : IsInRange (length m.plan.instances) m.instance_handlers

  -- An outcome that is no undefined read, at a manager that is valid.
  abbrev pub IsSafe : {A : Type 0} → Result A × LocalityManager Any × S → Type 0
  IsSafe (result, m, s) = (result ≢ undefined) × IsValid m

  abbrev pub Safe : {A : Type 0} → Action Any S A → Type 0
  Safe action = (m : LocalityManager Any) (s : S) → IsValid m → IsSafe (action m s)

  abbrev answering : {A : Type 0} → Result A × LocalityManager Any × S → Action Any S A
  answering out m s = out

  pub >>=-Safe :
      {A B : Type 0} (action : Action Any S A) (f : A → Action Any S B)
      → Safe action
      → ((a : A) → Safe (f a))
      → Safe (action >>= f)
  >>=-Safe {A} {B} action f h k m s v = go (action m s) (h m s v)
    where
      go :
          (out : Result A × LocalityManager Any × S)
          → IsSafe out
          → IsSafe ((answering out >>= f) m s)
      go (done a, n, t) d = k a n t d.1
      go (raised kind ex, n, t) d = (ground arith, d.1)
      go (install_order_error order, n, t) d = (ground arith, d.1)
      go (undefined, n, t) d = absurd (d.0 refl)
      go (diverged, n, t) d = (ground arith, d.1)

  propagate-ne :
      {A : Type 0} (kinds : List ErrorKind) (error : ErrorKind) (reason : String)
      (event : EventResult Any)
      → propagate runtime {A = A} kinds error reason event ≢ undefined
  unfolding propagate
  propagate-ne kinds error reason event = ground arith

  pub check_results-ne :
      (kinds : List ErrorKind) (error : ErrorKind) (reason : String)
      (completed : List (Option (EventResult Any)))
      → check_results runtime kinds error reason completed ≢ undefined
  unfolding check_results
  check_results-ne kinds error reason [] = ground arith
  check_results-ne kinds error reason (none ∷ completed) =
      check_results-ne kinds error reason completed
  check_results-ne kinds error reason (some event ∷ completed) = ground (
    arith,
    propagate-ne {A = Unit} kinds error reason event,
    check_results-ne kinds error reason completed,
  )

  pub collect_results-ne :
      (completed : List (Option (EventResult Any))) (provided : List (Provided Obj))
      → collect_results runtime completed provided ≢ undefined
  unfolding collect_results
  collect_results-ne [] provided = ground arith
  collect_results-ne (none ∷ completed) provided = collect_results-ne completed provided
  collect_results-ne (some event ∷ completed) provided = ground (
    arith,
    propagate-ne {A = List (Provided Obj)} (start_error ∷ invalid_property ∷ []) start_error
        "Unknown exception" event,
    collect_results-ne completed
        (provided ++ record { name = event.id; endpoint = reference_of runtime event ∷ [] } ∷ []),
  )

-- The interceptors leave a valid plan valid, and leave the number of its instances.
module _ {Any Obj S : Type 0} (runtime : Runtime Any Obj S)
    (wait-IsValidPlan : (delay : ℕ) (plan : DeploymentPlan Any) (events : List (Scheduled Obj))
        (s : S)
      → IsValidPlan runtime.extract_text plan
      → let after = (runtime.wait delay plan events s).1 in
        IsValidPlan runtime.extract_text after
        × (length after.instances ≡ length plan.instances)) where
  pub completed-IsValid :
      (m : LocalityManager Any) (events : List (Scheduled Obj)) (s : S)
      → IsValid runtime m
      → IsValid runtime (record m { plan = (runtime.wait m.spawn_delay m.plan events s).1 })
  completed-IsValid m events s v =
      let (valid, same) = wait-IsValidPlan m.spawn_delay m.plan events s v.plan_valid in
      record { plan_valid = valid; in_range = λ t. rw same (v.in_range t) }

  instance_phase-Safe :
      (kind : EventKind Obj) (orders : List String) (kinds : List ErrorKind) (error : ErrorKind)
      (reason : String)
      → Safe runtime (instance_phase runtime kind orders kinds error reason)
  instance_phase-Safe kind orders kinds error reason m s v =
      let (events, final, run, keys, all, same) =
        instance_phase-schedules runtime kind orders kinds error reason m s v.in_range in
      rw run (
        check_results-ne runtime kinds error reason (runtime.wait m.spawn_delay m.plan events s).0,
        (let w = completed-IsValid m events s v in
            record { plan_valid = w.plan_valid; in_range = λ t. rw (same t) (w.in_range t) }),
      )

  from_outcome-Safe : (out : Outcome) → Safe runtime (from_outcome runtime out)
  from_outcome-Safe (ordered order) m s v =
      (ground arith, record { plan_valid = v.plan_valid; in_range = v.in_range })
  from_outcome-Safe (invalid_install_order order) m s v =
      (ground arith, record { plan_valid = v.plan_valid; in_range = v.in_range })
  from_outcome-Safe out_of_fuel m s v = (ground arith, v)

  pub read_order-Safe : (plugins : PluginManager Any) → Safe runtime (read_order runtime plugins)
  unfolding read_order
  read_order-Safe plugins m s v =
      from_outcome-Safe (get_installation_order m.handler_order plugins) m s v

  pub install_instances-Safe : Safe runtime (install_instances runtime)
  unfolding install_instances
  install_instances-Safe m s v =
      instance_phase-Safe install_instance m.handler_order install_errors start_error
        "Unknown exception" m s v

  pub start-Safe : Safe runtime (start runtime)
  unfolding start
  start-Safe m s v =
      instance_phase-Safe start_instance m.handler_order (start_error ∷ []) start_error
        "Unknown exception" m s v

  pub configured_instances-Safe : Safe runtime (configured_instances runtime)
  unfolding configured_instances
  configured_instances-Safe m s v =
      instance_phase-Safe instance_configured m.handler_order (start_error ∷ []) start_error
        "Unknown exception from instance_configured" m s v

  pub start_if-Safe : (with_start : Bool) → Safe runtime (start_if runtime with_start)
  unfolding start_if
  start_if-Safe true = start-Safe
  start_if-Safe false = λ m s v. (ground arith, v)

  pub remove_instances-Safe : Safe runtime (remove_instances runtime)
  unfolding remove_instances
  remove_instances-Safe m s v =
      instance_phase-Safe remove_instance (reverse m.handler_order) (stop_error ∷ []) stop_error
        "Unknown exception" m s v

  pub stop-Safe : Safe runtime (stop runtime)
  unfolding stop
  stop-Safe m s v =
      instance_phase-Safe passivate_instance (reverse m.handler_order) (stop_error ∷ []) stop_error
        "Unknown exception" m s v
