-- ===== src/LocalityManager/Bounds.antt =====
-- No operation of `LocalityManager_i` reads past the end of a sequence of its plan.
use dancex.Prelude.{
  ℕ, suc, ◌<◌, ◌+◌, ◌≤◌, ◌^◌, List, [], ◌∷◌, Option, some, String, length, ◌≡◌, refl, arith, All,
  Defined, >>=-Defined, get_elem?-lt, get_elem?-All, Option-cases, Bool-cases, inl, inr, leb,
}
use dancex.StringMap.{SMap, find, assign}
use dancex.StringMap.Laws.{Values, assign-Values, find-Values}
use dancex.Split.Plan.{DeploymentPlan, Connection, Endpoint}
use dancex.LocalityManager.{EventKind, Provided, select_among, select_endpoint, endpoint_type}
use dancex.LocalityManager.Phase.{
  Runtime, connection_event, provider_events, reference_events, connection_table, endpoint_event,
  connect_event, connect_events, disconnect_event, disconnect_events,
}
use dancex.LocalityManager.Prepared.{IsTyped}

select_among-lt :
    (external : ℕ) (endpoints : List Endpoint) {j : ℕ}
    → select_among external endpoints ≡ some j
    → j < length endpoints
select_among-lt external [] h = ground arith
select_among-lt external (first ∷ []) h = ground arith
select_among-lt external (first ∷ second ∷ []) h = ground arith
select_among-lt external (first ∷ second ∷ third ∷ rest) h = ground arith

-- The endpoint that is selected is one of the connection.
pub select_endpoint-lt :
    (conn : Connection) {j : ℕ} → select_endpoint conn ≡ some j → j < length conn.internal_endpoint
unfolding select_endpoint
select_endpoint-lt conn h =
    select_among-lt (length conn.external_reference + length conn.external_endpoint)
      conn.internal_endpoint h

module _ {Any : Type 0} (extract : Any → Option String) where
  -- The references of the plan are those of its elements, and its indices are of 32 bits.
  pub record IsValidPlan (plan : DeploymentPlan Any) : Type 0 where
    pub typed : IsTyped extract plan plan.instances
    pub endpoints :
        All
          (λ conn. All (λ ep. ep.instance_ref < length plan.instances) conn.internal_endpoint)
          plan.connection
    pub few : length plan.connection ≤ 2 ^ 32

  endpoint_type-Defined :
      (plan : DeploymentPlan Any) (ep : Endpoint)
      → IsValidPlan plan
      → ep.instance_ref < length plan.instances
      → Defined (endpoint_type extract plan ep)
  unfolding endpoint_type
  endpoint_type-Defined plan ep v h =
      >>=-Defined _ _ (get_elem?-lt plan.instances ep.instance_ref h)
        (λ instance_ e. get_elem?-All _ plan.instances ep.instance_ref v.typed e)

module _ {Any Obj S : Type 0} (runtime : Runtime Any Obj S)
    (truncate_cast-small : (n : ℕ) → n < 2 ^ 32 → runtime.truncate_cast n ≡ n)
    (plan : DeploymentPlan Any) (v : IsValidPlan runtime.extract_text plan) where
  abbrev text : Any → Option String
  text = runtime.extract_text

  connection_event-Defined :
      (kind : EventKind Obj) (t : String) (ref : ℕ)
      → ref < length plan.connection
      → Defined (connection_event kind plan t ref)
  unfolding connection_event
  connection_event-Defined kind t ref h =
      >>=-Defined _ _ (get_elem?-lt plan.connection ref h) (λ conn e. (_, refl))

  truncate_cast-lt :
      (i : ℕ) → i < length plan.connection → runtime.truncate_cast i < length plan.connection
  truncate_cast-lt i h = let few = v.few in rw (truncate_cast-small i (omega arith)) h

  provider_events-Defined :
      (i : ℕ) (endpoints : List Endpoint)
      → i < length plan.connection
      → All (λ ep. ep.instance_ref < length plan.instances) endpoints
      → Defined (provider_events runtime plan i endpoints)
  unfolding provider_events
  provider_events-Defined i [] h all = ([], refl)
  provider_events-Defined i (ep ∷ endpoints) h all =
      >>=-Defined _ _ (provider_events-Defined i endpoints h all.1) (λ events e.
        elim (Bool-cases ep.provider) [
          | inl p ↦ rw p (
              >>=-Defined _ _ (endpoint_type-Defined text plan ep v all.0) (λ t f.
                >>=-Defined _ _
                  (connection_event-Defined EventKind.endpoint_reference t (runtime.truncate_cast i)
                    (truncate_cast-lt i h))
                  (λ event g. (_, refl))))
          | inr p ↦ rw p (events, refl)
        ])

  pub reference_events-Defined :
      (i : ℕ) (conns : List Connection)
      → i + length conns ≤ length plan.connection
      → All
          (λ conn. All (λ ep. ep.instance_ref < length plan.instances) conn.internal_endpoint)
          conns
      → Defined (reference_events runtime plan i conns)
  unfolding reference_events
  reference_events-Defined i [] h all = (([], []), refl)
  reference_events-Defined i (conn ∷ conns) h all =
      >>=-Defined _ _ (reference_events-Defined (suc i) conns (omega arith) all.1) (λ found e.
        elim (Bool-cases (leb (length conn.external_reference + length conn.external_endpoint) 0)) [
          | inl p ↦ rw p (
              >>=-Defined _ _ (provider_events-Defined i conn.internal_endpoint (omega arith) all.0)
                (λ events f. (_, refl)))
          | inr p ↦ rw p (_, refl)
        ])

  endpoint_event-Defined :
      (kind : EventKind Obj) (conn : Connection) (j ref : ℕ)
      → All (λ ep. ep.instance_ref < length plan.instances) conn.internal_endpoint
      → select_endpoint conn ≡ some j
      → ref < length plan.connection
      → Defined (endpoint_event runtime kind plan conn j ref)
  unfolding endpoint_event
  endpoint_event-Defined kind conn j ref all chosen h =
      >>=-Defined _ _ (get_elem?-lt conn.internal_endpoint j (select_endpoint-lt conn chosen))
        (λ ep e.
          >>=-Defined _ _
            (endpoint_type-Defined text plan ep v (get_elem?-All _ conn.internal_endpoint j all e))
            (λ t f. connection_event-Defined kind t ref h))

  connect_event-Defined :
      (conns : SMap ℕ) (connection : Provided Obj)
      → Values (λ ref. ref < length plan.connection) conns
      → 0 < length connection.endpoint
      → Defined (connect_event runtime plan conns connection)
  unfolding connect_event
  connect_event-Defined conns connection h some_endpoint =
      elim (Option-cases (find connection.name conns)) [
        | inl e ↦ rw (e, connect_event) ([], refl)
        | inr (ref, e) ↦
            let lt = find-Values (λ ref. ref < length plan.connection) connection.name conns h e in
            rw (e, connect_event)
              (>>=-Defined _ _ (get_elem?-lt plan.connection ref lt) (λ conn f.
                elim (Option-cases (select_endpoint conn)) [
                  | inl p ↦ rw p ([], refl)
                  | inr (j, p) ↦ rw p (
                      >>=-Defined _ _ (get_elem?-lt connection.endpoint 0 some_endpoint)
                        (λ reference r.
                          >>=-Defined _ _
                            (endpoint_event-Defined (EventKind.connect_instance reference) conn j
                              ref (get_elem?-All _ plan.connection ref v.endpoints f) p lt)
                            (λ event g. (_, refl))))
                ]))
      ]

  pub connect_events-Defined :
      (conns : SMap ℕ) (provided : List (Provided Obj))
      → Values (λ ref. ref < length plan.connection) conns
      → All (λ connection. 0 < length connection.endpoint) provided
      → Defined (connect_events runtime plan conns provided)
  unfolding connect_events
  connect_events-Defined conns [] h all = ([], refl)
  connect_events-Defined conns (connection ∷ provided) h all =
      >>=-Defined _ _ (connect_event-Defined conns connection h all.0) (λ found e.
        >>=-Defined _ _ (connect_events-Defined conns provided h all.1) (λ events f. (_, refl)))

  pub connection_table-Values :
      (i : ℕ) (conns : List Connection) (table : SMap ℕ)
      → i + length conns ≤ length plan.connection
      → Values (λ ref. ref < length plan.connection) table
      → Values (λ ref. ref < length plan.connection) (connection_table runtime i conns table)
  unfolding connection_table
  connection_table-Values i [] table h t = t
  connection_table-Values i (conn ∷ conns) table h t =
      connection_table-Values (suc i) conns (assign conn.name (runtime.truncate_cast i) table)
        (omega arith)
        (assign-Values (λ ref. ref < length plan.connection) conn.name (runtime.truncate_cast i)
          table (truncate_cast-lt i (omega arith)) t)

  disconnect_event-Defined :
      (i : ℕ) (conn : Connection)
      → i < length plan.connection
      → All (λ ep. ep.instance_ref < length plan.instances) conn.internal_endpoint
      → Defined (disconnect_event runtime plan i conn)
  unfolding disconnect_event
  disconnect_event-Defined i conn h all = elim (Option-cases (select_endpoint conn)) [
    | inl p ↦ rw (p, disconnect_event) ([], refl)
    | inr (j, p) ↦
        rw (p, disconnect_event)
          (>>=-Defined _ _
            (endpoint_event-Defined EventKind.disconnect_instance conn j (runtime.truncate_cast i)
              all p (truncate_cast-lt i h))
            (λ event g. (_, refl)))
  ]

  pub disconnect_events-Defined :
      (i : ℕ) (conns : List Connection)
      → i + length conns ≤ length plan.connection
      → All
          (λ conn. All (λ ep. ep.instance_ref < length plan.instances) conn.internal_endpoint)
          conns
      → Defined (disconnect_events runtime plan i conns)
  unfolding disconnect_events
  disconnect_events-Defined i [] h all = ([], refl)
  disconnect_events-Defined i (conn ∷ conns) h all =
      >>=-Defined _ _ (disconnect_event-Defined i conn (omega arith) all.0) (λ found e.
        >>=-Defined _ _ (disconnect_events-Defined (suc i) conns (omega arith) all.1)
          (λ events f. (_, refl)))
