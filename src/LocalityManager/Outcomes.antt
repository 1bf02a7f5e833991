-- ===== src/LocalityManager/Outcomes.antt =====
-- What the loops over the completed events make of an operation of `LocalityManager_i`.
use dancex.Utility.Exceptions.{ExceptionInfo}
use dancex.Prelude.{
  ◌∙◌, List, [], ◌∷◌, ◌++◌, Option, none, some, true, false, String, ◌≡◌, ◌≢◌, ◌↔◌, refl, arith,
  All, Bool-cases, inl, inr,
}
use dancex.Events.Action.{EventResult}
use dancex.LocalityManager.{
  LocalityManager, Scheduled, ErrorKind, start_error, invalid_connection, done, raised,
}
use dancex.LocalityManager.Phase.{
  Runtime, extract_first, propagate, check_results, disconnect_events,
}
use dancex.LocalityManager.Actions.{Action, ◌>>=◌, defined}
use dancex.LocalityManager.Teardown.{remove_instances, disconnect_connections, destroy_application}

-- No exception, or a future that cannot be read.
abbrev pub Quiet : {Any : Type 0} → Option (EventResult Any) → Type 0
Quiet none = Unit
Quiet (some event) = event.exception ≡ false

module _ {Any Obj S : Type 0} (runtime : Runtime Any Obj S) (kinds : List ErrorKind)
    (error : ErrorKind) (reason : String) where
  done-Quiet :
      (completed : List (Option (EventResult Any)))
      → All Quiet completed
      → check_results runtime kinds error reason completed ≡ done tt
  unfolding check_results
  done-Quiet [] h = refl
  done-Quiet (none ∷ completed) h = done-Quiet completed h.1
  done-Quiet (some event ∷ completed) h = rw (h.0, check_results) (done-Quiet completed h.1)

  check_results-thrown :
      (before after : List (Option (EventResult Any))) (event : EventResult Any)
      → All Quiet before
      → event.exception ≡ true
      → check_results runtime kinds error reason (before ++ some event ∷ after)
        ≡ propagate runtime kinds error reason event
  unfolding check_results
  check_results-thrown [] after event h e = ground arith
  check_results-thrown (none ∷ before) after event h e =
      check_results-thrown before after event h.1 e
  check_results-thrown (some quiet ∷ before) after event h e =
      rw (h.0, check_results) (check_results-thrown before after event h.1 e)

  propagate-ne : (event : EventResult Any) → propagate runtime kinds error reason event ≢ done tt
  unfolding propagate
  propagate-ne event = ground arith

  Quiet-check_results :
      (completed : List (Option (EventResult Any)))
      → check_results runtime kinds error reason completed ≡ done tt
      → All Quiet completed
  unfolding check_results
  Quiet-check_results [] h = tt
  Quiet-check_results (none ∷ l) h = (tt, Quiet-check_results l h)
  Quiet-check_results (some event ∷ l) h = elim (Bool-cases event.exception) [
    | inl e ↦ absurd (propagate-ne event (rw (e, check_results) at h))
    | inr e ↦ (e, Quiet-check_results l (rw (e, check_results) at h))
  ]

  -- The check of the results goes through exactly where no completed event that can be read ended
  -- with an exception, whatever exceptions the operation extracts.
  check_results-Quiet :
      (completed : List (Option (EventResult Any)))
      → (check_results runtime kinds error reason completed ≡ done tt) ↔ All Quiet completed
  check_results-Quiet completed = (Quiet-check_results completed, done-Quiet completed)

-- What the IDL lets `disconnect_instance` throw.
module _ {Any Obj S : Type 0} (runtime : Runtime Any Obj S) where
  raised-after :
      {A B : Type 0} (action : Action Any S A) (f : A → Action Any S B) (m : LocalityManager Any)
      (s : S) {kind : ErrorKind} {ex : ExceptionInfo}
      → (action m s).0 ≡ raised kind ex
      → ((action >>= f) m s).0 ≡ raised kind ex
  raised-after action f m s e = rw (e, ◌>>=◌) refl

  disconnect_connections-raised :
      (m : LocalityManager Any) (s : S) (scheduled : List (Scheduled Obj))
      (before after : List (Option (EventResult Any))) (event : EventResult Any)
      → disconnect_events runtime m.plan 0 m.plan.connection ≡ some scheduled
      → (runtime.wait m.spawn_delay m.plan scheduled s).0 ≡ before ++ some event ∷ after
      → All Quiet before
      → event.exception ≡ true
      → runtime.extract_exception start_error event.contents ≡ none
      → runtime.extract_exception invalid_connection event.contents ≡ none
      → (disconnect_connections runtime m s).0
        ≡ raised start_error (record { name = event.id; reason = "Unknown exception" })
  unfolding disconnect_connections propagate extract_first
  disconnect_connections-raised m s scheduled before after event e f quiet thrown not_start
        not_invalid =
      let g =
        check_results-thrown runtime (start_error ∷ invalid_connection ∷ []) start_error
          "Unknown exception" before after event quiet thrown in
      rw (e, defined) (rw f (g ∙ ground arith))

  -- Where the first disconnect event that fails holds an exception that is neither a StartError
  -- nor an InvalidConnection, destroyApplication throws a StartError with the reason Unknown
  -- exception.
  destroy_application-lost :
      (m : LocalityManager Any) (s : S) (scheduled : List (Scheduled Obj))
      (before after : List (Option (EventResult Any))) (event : EventResult Any)
      → disconnect_events runtime m.plan 0 m.plan.connection ≡ some scheduled
      → (runtime.wait m.spawn_delay m.plan scheduled s).0 ≡ before ++ some event ∷ after
      → All Quiet before
      → event.exception ≡ true
      → runtime.extract_exception start_error event.contents ≡ none
      → runtime.extract_exception invalid_connection event.contents ≡ none
      → (destroy_application runtime m s).0
        ≡ raised start_error (record { name = event.id; reason = "Unknown exception" })
  unfolding destroy_application
  destroy_application-lost m s scheduled before after event e f quiet thrown not_start not_invalid =
      raised-after (disconnect_connections runtime) (λ u. remove_instances runtime) m s
        (disconnect_connections-raised m s scheduled before after event e f quiet thrown not_start
          not_invalid)
