-- ===== src/LocalityManager/Dispatch.antt =====
-- What the loops over the types schedule, in terms of what is listed under each type.
use dancex.Prelude.{
  ℕ, ◌<◌, List, [], ◌∷◌, ◌++◌, some, String, length, ◌≡◌, refl, ◌∙◌, ap, All, All-append,
  concat_map, map, ◌>>=◌, get_elem?-lt, concat_map-cong, map-append,
}
use dancex.StringMap.{SMap}
use dancex.Split.Plan.{DeploymentPlan}
use dancex.LocalityManager.{LocalityManager, EventKind, Scheduled, ErrorKind, subscript}
use dancex.LocalityManager.Phase.{
  Runtime, instance_event, instance_events, order_events, check_results,
}
use dancex.LocalityManager.Actions.{defined}
use dancex.LocalityManager.Launch.{instance_phase}
use dancex.LocalityManager.Prepared.{listed, listed-subscript}

-- What tells the event of an instance: the type of the handler that is called, and the index.
abbrev pub key : {Obj : Type 0} → Scheduled Obj → String × ℕ
key event = (event.instance_type, event.ref)

-- The instances listed under a type, with the type.
abbrev pub listed_keys : SMap (List ℕ) → String → List (String × ℕ)
listed_keys handlers type = map (λ ref. (type, ref)) (listed type handlers)

-- Every index that is listed is that of an instance.
abbrev pub IsInRange : ℕ → SMap (List ℕ) → Type 0
IsInRange n handlers = (t : String) → All (λ ref. ref < n) (listed t handlers)

module _ {Any Obj : Type 0} (kind : EventKind Obj) (plan : DeploymentPlan Any) where
  instance_events-keys :
      (order : String) (list : List ℕ)
      → All (λ ref. ref < length plan.instances) list
      → (events : List (Scheduled Obj)) × (instance_events kind plan order list ≡ some events)
        × (map key events ≡ map (λ ref. (order, ref)) list)
        × All (λ event. event.kind ≡ kind) events
  unfolding instance_events instance_event
  instance_events-keys order [] h = ([], refl, refl, tt)
  instance_events-keys order (ref ∷ list) h =
      let (instance_, e) = get_elem?-lt plan.instances ref h.0 in
      let (events, f, keys, kinds) = instance_events-keys order list h.1 in
      (
        record { kind = kind; name = instance_.name; ref = ref; instance_type = order } ∷ events,
        rw (e, instance_events, ◌>>=◌) (rw (f, ◌>>=◌) refl),
        ap (◌∷◌ (order, ref)) keys,
        (refl, kinds),
      )

  pub order_events-keys :
      (orders : List String) (handlers : SMap (List ℕ))
      → IsInRange (length plan.instances) handlers
      → (events : List (Scheduled Obj)) × (final : SMap (List ℕ)) × (order_events kind plan orders
            handlers
          ≡ some (events, final))
        × (map key events ≡ concat_map (listed_keys handlers) orders)
        × All (λ event. event.kind ≡ kind) events
        × ((t : String) → listed t final ≡ listed t handlers)
  unfolding order_events
  order_events-keys [] handlers h = ([], handlers, refl, refl, tt, λ t. refl)
  order_events-keys (order ∷ orders) handlers h =
      let table = (subscript order handlers).1 in
      let (events, e, keys, kinds) = instance_events-keys order (listed order handlers) (h order) in
      let (rest, final, f, rest_keys, rest_kinds, same) =
        order_events-keys orders table (λ t. rw (listed-subscript t order handlers) (h t)) in
      (
        events ++ rest,
        final,
        rw (e, order_events, ◌>>=◌) (rw (f, ◌>>=◌) refl),
        map-append key events rest
            ∙ rw keys (
                ap (◌++◌ (listed_keys handlers order)) (
                  rest_keys
                  ∙ concat_map-cong (listed_keys table) (listed_keys handlers) orders
                      (λ t. ap (map (λ ref. (t, ref))) (listed-subscript t order handlers)))),
        All-append (λ event. event.kind ≡ kind) events rest kinds rest_kinds,
        λ t. same t ∙ listed-subscript t order handlers,
      )

-- A phase in terms of what it schedules: the manager keeps its order and its delay, and the
-- result is that of the check of what the scheduler answers.
module _ {Any Obj S : Type 0} (runtime : Runtime Any Obj S) (kind : EventKind Obj)
    (orders : List String) (kinds : List ErrorKind) (error : ErrorKind) (reason : String) where
  pub instance_phase-schedules :
      (m : LocalityManager Any) (s : S)
      → IsInRange (length m.plan.instances) m.instance_handlers
      → (events : List (Scheduled Obj)) × (final : SMap (List ℕ)) × (instance_phase runtime kind
            orders kinds error reason m s
          ≡ (let (results, plan, t) = runtime.wait m.spawn_delay m.plan events s in
              (
                check_results runtime kinds error reason results,
                record m { plan = plan; instance_handlers = final },
                t,
              )))
        × (map key events ≡ concat_map (listed_keys m.instance_handlers) orders)
        × All (λ event. event.kind ≡ kind) events
        × ((t : String) → listed t final ≡ listed t m.instance_handlers)
  unfolding instance_phase
  instance_phase-schedules m s h =
      let (events, final, e, keys, all, same) =
        order_events-keys kind m.plan orders m.instance_handlers h in
      (events, final, rw (e, instance_phase, defined) refl, keys, all, same)
