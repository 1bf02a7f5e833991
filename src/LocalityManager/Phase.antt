-- ===== src/LocalityManager/Phase.antt =====
-- The parts that the operations of `LocalityManager_i` share: the loops that schedule events, the
-- waiting, and the loops that check the results of the events.
use dancex.Prelude.{
  ℕ, suc, ◌+◌, List, [], ◌∷◌, ◌++◌, Option, none, some, Bool, true, false, String, length,
  if◌then◌else◌, get_elem?, leb, ◌>>=◌,
}
use dancex.StringMap.{SMap, find, assign}
use dancex.Utility.Exceptions.{ExceptionInfo}
use dancex.Split.Plan.{DeploymentPlan, Connection, Endpoint}
use dancex.Events.Action.{EventResult}
use dancex.LocalityManager.{
  EventKind, endpoint_reference, disconnect_instance, connect_instance, Scheduled, ErrorKind,
  start_error, invalid_property, Result, done, raised, Provided, subscript, select_endpoint,
  endpoint_type,
}

-- What the manager stands on: the casts, the extractions from an `Any`, and the scheduler.
pub record Runtime (Any Obj S : Type 0) : Type 0 where
  pub truncate_cast : ℕ → ℕ
  pub extract_text : Any → Option String
  pub extract_exception : ErrorKind → Any → Option ExceptionInfo
  pub extract_object : Any → Option Obj
  pub is_null : Any → Bool
  pub wait :
      ℕ
      → DeploymentPlan Any
      → List (Scheduled Obj)
      → S
      → List (Option (EventResult Any)) × DeploymentPlan Any × S

module _ {Any Obj : Type 0} where
  unfoldable pub instance_event :
      EventKind Obj → DeploymentPlan Any → String → ℕ → Option (Scheduled Obj)
  instance_event kind plan order ref = do
    instance_ ← get_elem? plan.instances ref
    some (record { kind = kind; name = instance_.name; ref = ref; instance_type = order })

  unfoldable pub connection_event :
      EventKind Obj → DeploymentPlan Any → String → ℕ → Option (Scheduled Obj)
  connection_event kind plan inst_type ref = do
    conn ← get_elem? plan.connection ref
    some (record { kind = kind; name = conn.name; ref = ref; instance_type = inst_type })

  -- The loop over the instances of one type.
  unfoldable pub instance_events :
      EventKind Obj → DeploymentPlan Any → String → List ℕ → Option (List (Scheduled Obj))
  unfolding instance_event
  instance_events kind plan order [] = some []
  instance_events kind plan order (ref ∷ list) = do
    event ← instance_event kind plan order ref
    events ← instance_events kind plan order list
    some (event ∷ events)

  -- The loop over the types.
  unfoldable pub order_events :
      EventKind Obj
      → DeploymentPlan Any
      → List String
      → SMap (List ℕ)
      → Option (List (Scheduled Obj) × SMap (List ℕ))
  unfolding subscript instance_events
  order_events kind plan [] handlers = some ([], handlers)
  order_events kind plan (order ∷ orders) handlers =
      let (list, table) = subscript order handlers in
      do
        events ← instance_events kind plan order list
        (rest, final) ← order_events kind plan orders table
        some (events ++ rest, final)

module _ {Any Obj S : Type 0} (runtime : Runtime Any Obj S) where
  unfoldable pub provider_events :
      DeploymentPlan Any → ℕ → List Endpoint → Option (List (Scheduled Obj))
  unfolding endpoint_type connection_event
  provider_events plan i [] = some []
  provider_events plan i (ep ∷ endpoints) = do
    events ← provider_events plan i endpoints
    elim ep.provider [
      | false ↦ some events
      | true ↦ do
        inst_type ← endpoint_type runtime.extract_text plan ep
        event ← connection_event endpoint_reference plan inst_type (runtime.truncate_cast i)
        some (event ∷ events)
    ]

  -- The loop of `collect_references`, from the connection `i` on: the connections that are provided
  -- with a nil reference, and the events.
  unfoldable pub reference_events :
      DeploymentPlan Any → ℕ → List Connection → Option (List (Provided Obj) × List (Scheduled Obj))
  unfolding provider_events
  reference_events plan i [] = some ([], [])
  reference_events plan i (conn ∷ conns) = do
    (provided, events) ← reference_events plan (suc i) conns
    elim (leb (length conn.external_reference + length conn.external_endpoint) 0) [
      | false ↦ some (record { name = conn.name; endpoint = none ∷ [] } ∷ provided, events)
      | true ↦ do
        found ← provider_events plan i conn.internal_endpoint
        some (provided, found ++ events)
    ]

  -- `conns[name] = i` for each connection of the plan.
  unfoldable pub connection_table : ℕ → List Connection → SMap ℕ → SMap ℕ
  unfolding assign
  connection_table i [] conns = conns
  connection_table i (conn ∷ rest) conns =
      connection_table (suc i) rest (assign conn.name (runtime.truncate_cast i) conns)

  -- The event of the endpoint `j` of the connection `ref`.
  unfoldable pub endpoint_event :
      EventKind Obj → DeploymentPlan Any → Connection → ℕ → ℕ → Option (Scheduled Obj)
  unfolding endpoint_type connection_event
  endpoint_event kind plan conn j ref = do
    ep ← get_elem? conn.internal_endpoint j
    inst_type ← endpoint_type runtime.extract_text plan ep
    connection_event kind plan inst_type ref

  -- The body of the loop of `finishLaunch`: the event, if any.
  unfoldable pub connect_event :
      DeploymentPlan Any → SMap ℕ → Provided Obj → Option (List (Scheduled Obj))
  unfolding find select_endpoint endpoint_event
  connect_event plan conns connection = elim (find connection.name conns) [
    | none ↦ some []
    | some ref ↦ do
      conn ← get_elem? plan.connection ref
      elim (select_endpoint conn) [
        | none ↦ some []
        | some j ↦ do
          reference ← get_elem? connection.endpoint 0
          event ← endpoint_event (connect_instance reference) plan conn j ref
          some (event ∷ [])
      ]
  ]

  unfoldable pub connect_events :
      DeploymentPlan Any → SMap ℕ → List (Provided Obj) → Option (List (Scheduled Obj))
  unfolding connect_event
  connect_events plan conns [] = some []
  connect_events plan conns (connection ∷ provided) = do
    found ← connect_event plan conns connection
    events ← connect_events plan conns provided
    some (found ++ events)

  -- The body of the loop of `disconnect_connections`.
  unfoldable pub disconnect_event :
      DeploymentPlan Any → ℕ → Connection → Option (List (Scheduled Obj))
  unfolding select_endpoint endpoint_event
  disconnect_event plan i conn = elim (select_endpoint conn) [
    | none ↦ some []
    | some j ↦ do
      event ← endpoint_event disconnect_instance plan conn j (runtime.truncate_cast i)
      some (event ∷ [])
  ]

  unfoldable pub disconnect_events :
      DeploymentPlan Any → ℕ → List Connection → Option (List (Scheduled Obj))
  unfolding disconnect_event
  disconnect_events plan i [] = some []
  disconnect_events plan i (conn ∷ conns) = do
    found ← disconnect_event plan i conn
    events ← disconnect_events plan (suc i) conns
    some (found ++ events)

  -- The calls of `extract_and_throw_exception` in their order: what the first that succeeds throws.
  unfoldable pub extract_first : List ErrorKind → Any → Option (ErrorKind × ExceptionInfo)
  extract_first [] contents = none
  extract_first (kind ∷ kinds) contents =
      let rest = extract_first kinds contents in
      elim (runtime.extract_exception kind contents) [ none ↦ rest | some ex ↦ some (kind, ex) ]

  -- What an event that ended with an exception makes of the operation.
  unfoldable pub propagate :
      {A : Type 0} → List ErrorKind → ErrorKind → String → EventResult Any → Result A
  unfolding extract_first
  propagate kinds error reason event = elim (extract_first kinds event.contents) [
    | none ↦ raised error (record { name = event.id; reason = reason })
    | some (kind, ex) ↦ raised kind ex
  ]

  -- The loop over the completed events.
  unfoldable pub check_results :
      List ErrorKind → ErrorKind → String → List (Option (EventResult Any)) → Result Unit
  unfolding propagate
  check_results kinds error reason [] = done tt
  check_results kinds error reason (none ∷ completed) = check_results kinds error reason completed
  check_results kinds error reason (some event ∷ completed) =
      let rest = check_results kinds error reason completed in
      if event.exception then propagate kinds error reason event else rest

  abbrev pub reference_of : EventResult Any → Option Obj
  reference_of event =
      if runtime.is_null event.contents then none else runtime.extract_object event.contents

  -- The same loop in `collect_references`, which collects what the events refer to.
  unfoldable pub collect_results :
      List (Option (EventResult Any)) → List (Provided Obj) → Result (List (Provided Obj))
  unfolding propagate
  collect_results [] provided = done provided
  collect_results (none ∷ completed) provided = collect_results completed provided
  collect_results (some event ∷ completed) provided =
      let rest =
        collect_results completed
          (provided ++ record { name = event.id; endpoint = reference_of event ∷ [] } ∷ []) in
      if event.exception
      then propagate (start_error ∷ invalid_property ∷ []) start_error "Unknown exception" event
      else rest
