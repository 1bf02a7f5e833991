-- ===== src/LocalityManager/Agreement.antt =====
-- `finishLaunch` and `disconnect_connections` choose the same endpoints.
use dancex.Prelude.{
  ℕ, suc, ◌<◌, ◌+◌, ◌≤◌, ◌^◌, List, [], ◌∷◌, ◌++◌, some, String, length, ◌≡◌, ◌≢◌, refl, sym, ◌∙◌,
  ap, arith, subst, All, get_elem?, get_elem?-lt, map, map-append, Distinct, Option-cases, inl, inr,
  str_eq_iff, str_eq_refl,
}
use dancex.StringMap.{SMap, find, assign}
use dancex.StringMap.Laws.{find-assign}
use dancex.Split.Plan.{DeploymentPlan, Connection}
use dancex.LocalityManager.{
  EventKind, disconnect_instance, connect_instance, Scheduled, Provided, select_endpoint,
}
use dancex.LocalityManager.Phase.{
  Runtime, connection_event, connection_table, endpoint_event, connect_event, connect_events,
  disconnect_event, disconnect_events,
}
use dancex.LocalityManager.Bounds.{IsValidPlan, disconnect_events-Defined}

-- The references arrive in the order of the connections, each with an endpoint.
abbrev pub Matches : {Obj : Type 0} → List (Provided Obj) → List Connection → Type 0
Matches [] [] = Unit
Matches [] (conn ∷ conns) = ⊥
Matches (connection ∷ provided) [] = ⊥
Matches (connection ∷ provided) (conn ∷ conns) =
    (connection.name ≡ conn.name) × (0 < length connection.endpoint) × Matches provided conns

-- The connections stand in the table under their names, from the index `i` on.
abbrev pub LookedUp : SMap ℕ → ℕ → List Connection → Type 0
LookedUp table i [] = Unit
LookedUp table i (conn ∷ conns) = (find conn.name table ≡ some i) × LookedUp table (suc i) conns

-- An event of a connection without its kind.
abbrev pub connection_key : {Obj : Type 0} → Scheduled Obj → String × ℕ × String
connection_key event = (event.name, event.ref, event.instance_type)

module _ {Any Obj S : Type 0} (runtime : Runtime Any Obj S)
    (truncate_cast-small : (n : ℕ) → n < 2 ^ 32 → runtime.truncate_cast n ≡ n) where
  find-connection_table :
      (name : String) (i : ℕ) (conns : List Connection) (table : SMap ℕ)
      → All (λ other. other ≢ name) (map (λ conn. conn.name) conns)
      → find name (connection_table runtime i conns table) ≡ find name table
  unfolding connection_table
  find-connection_table name i [] table h = refl
  find-connection_table name i (conn ∷ conns) table h =
      find-connection_table name (suc i) conns (assign conn.name (runtime.truncate_cast i) table)
        h.1
      ∙ ground (
        arith,
        find-assign conn.name name (runtime.truncate_cast i) table,
        str_eq_iff conn.name name,
        h.0,
      )

  connection_table-LookedUp :
      (i : ℕ) (conns : List Connection) (table : SMap ℕ)
      → Distinct (map (λ conn. conn.name) conns)
      → i + length conns ≤ 2 ^ 32
      → LookedUp (connection_table runtime i conns table) i conns
  unfolding connection_table
  connection_table-LookedUp i [] table d small = tt
  connection_table-LookedUp i (conn ∷ conns) table d small = (
    find-connection_table conn.name (suc i) conns (assign conn.name (runtime.truncate_cast i) table)
          d.0
        ∙ ground (
          arith,
          find-assign conn.name conn.name (runtime.truncate_cast i) table,
          str_eq_refl conn.name,
          truncate_cast-small i (omega arith),
        ),
    connection_table-LookedUp (suc i) conns (assign conn.name (runtime.truncate_cast i) table) d.1
        (omega arith),
  )

  endpoint_event-kind :
      (kind other : EventKind Obj) (plan : DeploymentPlan Any) (conn : Connection) (j ref : ℕ)
      {event : Scheduled Obj}
      → endpoint_event runtime kind plan conn j ref ≡ some event
      → endpoint_event runtime other plan conn j ref ≡ some (record event { kind = other })
  unfolding endpoint_event connection_event
  endpoint_event-kind kind other plan conn j ref h = ground arith

  connect_event-agrees :
      (plan : DeploymentPlan Any) (table : SMap ℕ) (connection : Provided Obj) (conn : Connection)
      (i : ℕ) {events : List (Scheduled Obj)}
      → find connection.name table ≡ some i
      → get_elem? plan.connection i ≡ some conn
      → 0 < length connection.endpoint
      → runtime.truncate_cast i ≡ i
      → disconnect_event runtime plan i conn ≡ some events
      → (connects : List (Scheduled Obj)) × (connect_event runtime plan table connection
          ≡ some connects)
        × (map connection_key connects ≡ map connection_key events)
  unfolding connect_event disconnect_event
  connect_event-agrees plan table connection conn i {events} found at some_endpoint cast h =
      elim (Option-cases (select_endpoint conn)) [
        | inl e ↦ ([], ground arith, ground arith)
        | inr (j, e) ↦
            let (reference, r) = get_elem?-lt connection.endpoint 0 some_endpoint in
            elim (Option-cases (endpoint_event runtime disconnect_instance plan conn j i)) [
              | inl f ↦ absurd (ground arith)
              | inr (event, f) ↦
                  let g =
                    endpoint_event-kind disconnect_instance (connect_instance reference) plan conn j
                      i f in
                  (
                    record event { kind = connect_instance reference } ∷ [],
                    ground arith,
                    ground arith,
                  )
            ]
      ]

  events-agree :
      (plan : DeploymentPlan Any) (table : SMap ℕ) (i : ℕ) (provided : List (Provided Obj))
      (conns : List Connection) {events : List (Scheduled Obj)}
      → Matches provided conns
      → LookedUp table i conns
      → ((k : ℕ) → get_elem? plan.connection (i + k) ≡ get_elem? conns k)
      → i + length conns ≤ 2 ^ 32
      → disconnect_events runtime plan i conns ≡ some events
      → (connects : List (Scheduled Obj)) × (connect_events runtime plan table provided
          ≡ some connects)
        × (map connection_key connects ≡ map connection_key events)
  unfolding connect_events disconnect_events
  events-agree plan table i [] [] {events} w found at small h = ([], refl, ground arith)
  events-agree plan table i [] (conn ∷ conns) {events} w found at small h = absurd w
  events-agree plan table i (connection ∷ provided) [] {events} w found at small h = absurd w
  events-agree plan table i (connection ∷ provided) (conn ∷ conns) {events} (same, one, w) found at
        small h =
      elim (Option-cases (disconnect_event runtime plan i conn)) [
        | inl e ↦ absurd (ground arith)
        | inr (first, e) ↦ elim (Option-cases (disconnect_events runtime plan (suc i) conns)) [
          | inl f ↦ absurd (ground arith)
          | inr (rest, f) ↦
              let (a, ea, ka) =
                connect_event-agrees plan table connection conn i (rw same found.0)
                  (subst (λ n. get_elem? plan.connection n ≡ some conn) (omega arith) (at 0)) one
                  (truncate_cast-small i (omega arith)) e in
              let (b, eb, kb) =
                events-agree plan table (suc i) provided conns w found.1
                  (λ k.
                    subst (λ n. get_elem? plan.connection n ≡ get_elem? conns k) (omega arith)
                      (at (suc k)))
                  (omega arith) f in
              let same_events : first ++ rest ≡ events = ground arith in
              (
                a ++ b,
                ground arith,
                map-append connection_key a b
                    ∙ ap (λ l. l ++ map connection_key b) ka
                    ∙ ap (◌++◌ (map connection_key first)) kb
                    ∙ sym (map-append connection_key first rest)
                    ∙ ap (map connection_key) same_events,
              )
        ]
      ]

  -- For a valid plan whose connections have different names, where the references arrive for all
  -- of them, in order and each with an endpoint, finishLaunch connects exactly the connections
  -- that disconnect_connections disconnects, at the same endpoints: with the same names, indices
  -- and types.
  pub connect_events-disconnect :
      (plan : DeploymentPlan Any) (provided : List (Provided Obj))
      → IsValidPlan runtime.extract_text plan
      → Distinct (map (λ conn. conn.name) plan.connection)
      → Matches provided plan.connection
      → (connects : List (Scheduled Obj)) × (disconnects : List (Scheduled Obj)) × (connect_events
            runtime plan
            (connection_table runtime 0 plan.connection [])
            provided
          ≡ some connects)
        × (disconnect_events runtime plan 0 plan.connection ≡ some disconnects)
        × (map connection_key connects ≡ map connection_key disconnects)
  connect_events-disconnect plan provided v distinct w =
      let few = v.few in
      let (disconnects, e) =
        disconnect_events-Defined runtime truncate_cast-small plan v 0 plan.connection (omega arith)
          v.endpoints in
      let (connects, f, same) =
        events-agree plan (connection_table runtime 0 plan.connection []) 0 provided plan.connection
          w (connection_table-LookedUp 0 plan.connection [] distinct (omega arith))
          (λ k. ap (get_elem? plan.connection) (omega arith)) (omega arith) e in
      (connects, disconnects, f, e, same)
