-- ===== src/Interceptors/Tests.antt =====
-- An instance of the theorem about Standard_Error.
use dancex.Prelude.{
  [], ◌∷◌, Option, none, some, Bool, true, false, String, ◌≡◌, refl, if◌then◌else◌,
}
use dancex.Utility.Exceptions.{UserKind, ExceptionInfo}
use dancex.Split.Plan.{empty_plan}
use dancex.Events.Action.{Thrown, system, EventResult, call}
use dancex.Events.Kinds.{ActionState, HandlerCalls, start}
use dancex.Interceptors.{standard_error}
use dancex.Interceptors.Reports.{activation, event_of, standard_error-reports}

-- A value that holds an exception, or none.
abbrev Value : Type 0
Value = Option ExceptionInfo

abbrev refused : ExceptionInfo
refused = record { name = "instance"; reason = "refused" }

-- A handler that throws a system exception from every call.
abbrev refusing : HandlerCalls Value ExceptionInfo Unit
refusing = record {
  install_instance = λ plan ref value w. (some (system refused), value, w);
  provide_endpoint_reference = λ plan ref value w. (some (system refused), value, w);
  connect_instance = λ plan ref value w. (some (system refused), w);
  activate_instance = λ plan ref value w. (some (system refused), w);
  passivate_instance = λ plan ref value w. (some (system refused), w);
  remove_instance = λ plan ref value w. (some (system refused), w);
  disconnect_instance = λ plan ref w. (some (system refused), w);
  instance_configured = λ plan ref w. (some (system refused), w);
}

abbrev embed : UserKind → ExceptionInfo → Value
embed kind ex = some ex

abbrev is_nil : Value → Bool
is_nil none = true
is_nil (some ex) = false

abbrev throw : Value → Thrown ExceptionInfo
throw none = Thrown.foreign
throw (some ex) = system ex

abbrev any_of : ExceptionInfo → Option Value
any_of ex = some (some ex)

abbrev fetch : String → Option (HandlerCalls Value ExceptionInfo Unit)
fetch type = some refusing

abbrev state : ActionState Value Unit
state = record { plan = empty_plan; value = none; world = tt }

standard_error-reports_example :
    let holder =
      (call none is_nil any_of
        (event_of none embed activation "link" "type" 0)
        (standard_error is_nil throw ∷ [])
        fetch
        state).holder in
    (r : EventResult Value) × (holder ≡ some r)
    × (r.exception ≡ true)
    × ((if true then r.contents else some refused) ≡ some refused)
unfolding start
standard_error-reports_example =
    standard_error-reports none embed is_nil any_of throw activation "link" "type" 0 fetch state
      refusing (system refused) (some refused) refl refl refl refl refl
