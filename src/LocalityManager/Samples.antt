-- ===== src/LocalityManager/Samples.antt =====
-- A small plan, a manager that has prepared it, and plug-ins, for the tests.
use dancex.Prelude.{
  ◌≢◌, str_eq_iff, ℕ, ◌+◌, ◌<◌, [], ◌∷◌, Option, none, some, Bool, true, false, String, length, ◌≡◌,
  refl, subst, arith, map,
}
use dancex.Utility.{Properties, home_factory, component_factory, ccm_home, ccm_component}
use dancex.Utility.Exceptions.{ExceptionInfo, UserKind}
use dancex.Split.Plan.{DeploymentPlan, Connection, simplex_receptacle, facet, empty_plan}
use dancex.Plugins.{PluginManager, Interceptor, new_manager}
use dancex.Events.Action.{EventResult}
use dancex.LocalityManager.{
  LocalityManager, start_instance, Scheduled, ErrorKind, start_error, stop_error,
  new_locality_manager, preprocess_all, prepare_plan, implementation_type,
}
use dancex.LocalityManager.Phase.{Runtime}
use dancex.LocalityManager.Prepared.{IsTyped}
use dancex.LocalityManager.Dispatch.{IsInRange}
use dancex.LocalityManager.Installed.{IsPrepared, IsPrepared-IsInRange, prepare_plan-IsPrepared}
use dancex.LocalityManager.Bounds.{IsValidPlan}
use dancex.LocalityManager.Keeping.{IsValid}
use dancex.Events.Kinds.{HandlerCalls}
use dancex.LocalityManager.Performing.{Performed}

pub data Value : Type 0 where
  nothing : Value
  text : String → Value
  object : ℕ → Value
  fault : ErrorKind → ExceptionInfo → Value

abbrev pub text_of : Value → Option String
text_of (text s) = some s
text_of _ = none

abbrev pub object_of : Value → Option ℕ
object_of (object n) = some n
object_of _ = none

abbrev pub exception_of : ErrorKind → Value → Option ExceptionInfo
exception_of start_error (fault start_error ex) = some ex
exception_of stop_error (fault stop_error ex) = some ex
exception_of _ _ = none

abbrev pub is_nothing : Value → Bool
is_nothing nothing = true
is_nothing _ = false

abbrev pub same : ℕ → ℕ
same n = n

pub same-small : (n : ℕ) → n < 4294967296 → same n ≡ n
same-small n h = refl

-- Every event succeeds.
abbrev pub succeeds : Scheduled ℕ → Option (EventResult Value)
succeeds event = some (record { id = event.name; exception = false; contents = nothing })

-- The state counts the events.
abbrev pub runtime : Runtime Value ℕ ℕ
runtime = record {
  truncate_cast = same;
  extract_text = text_of;
  extract_exception = exception_of;
  extract_object = object_of;
  is_null = is_nothing;
  wait = λ delay plan events s. (map succeeds events, plan, s + length events);
}

abbrev pub stopped : ExceptionInfo
stopped = record { name = "a"; reason = "busy" }

abbrev pub failed : EventResult Value
failed = record { id = "link"; exception = true; contents = fault stop_error stopped }

abbrev pub implemented : String → Properties Value
implemented factory = record { name = factory; value = text "make" } ∷ []

abbrev pub link : Connection
link = record {
  name = "link";
  internal_endpoint =
      record { port_name = "in"; kind = facet; provider = true; instance_ref = 2 }
      ∷ record { port_name = "out"; kind = simplex_receptacle; provider = false; instance_ref = 1 }
      ∷ [];
  external_endpoint = [];
  external_reference = [];
}

abbrev pub plan : DeploymentPlan Value
plan = record empty_plan {
  implementation =
      record { name = "comp"; artifact_ref = []; exec_parameter = implemented component_factory }
      ∷ record { name = "home"; artifact_ref = []; exec_parameter = implemented home_factory }
      ∷ [];
  instances =
      record { name = "h"; node = "n"; implementation_ref = 1; config_property = [] }
      ∷ record { name = "a"; node = "n"; implementation_ref = 0; config_property = [] }
      ∷ record { name = "b"; node = "n"; implementation_ref = 0; config_property = [] }
      ∷ [];
  connection = link ∷ [];
}

abbrev pub unchanged_plan : Interceptor Value → DeploymentPlan Value → DeploymentPlan Value
unchanged_plan di p = p

abbrev pub plugins : PluginManager Value
plugins = new_manager

abbrev pub manager : LocalityManager Value
manager = record {
  plan = plan;
  instance_handlers = (ccm_component, 1 ∷ 2 ∷ []) ∷ (ccm_home, 0 ∷ []) ∷ [];
  handler_order = ccm_home ∷ ccm_component ∷ [];
  spawn_delay = 30;
}

-- `preparePlan` leads to these handlers.
prepared :
    record (prepare_plan text_of same unchanged_plan plugins plan new_locality_manager).1 {
      handler_order = ccm_home ∷ ccm_component ∷ [];
    }
    ≡ manager
unfolding prepare_plan
prepared = refl

pub plan-IsTyped : IsTyped text_of plan plan.instances
unfolding implementation_type
plan-IsTyped = ((ccm_home, refl), ((ccm_component, refl), ((ccm_component, refl), tt)))

pub manager-IsPrepared : IsPrepared text_of manager
unfolding preprocess_all
manager-IsPrepared =
    subst (IsPrepared text_of) prepared
      (prepare_plan-IsPrepared text_of same same-small unchanged_plan plugins plan
        new_locality_manager refl plan-IsTyped (omega arith)).1

pub manager-IsInRange : IsInRange 3 manager.instance_handlers
manager-IsInRange = IsPrepared-IsInRange text_of manager manager-IsPrepared

pub plan-IsValidPlan : IsValidPlan text_of plan
plan-IsValidPlan = record {
  typed = plan-IsTyped;
  endpoints = ((omega arith, (omega arith, tt)), tt);
  few = omega arith;
}

pub manager-IsValid : IsValid runtime manager
manager-IsValid = record { plan_valid = plan-IsValidPlan; in_range = manager-IsInRange }

pub component-ne-home : ccm_component ≢ ccm_home
component-ne-home e = let h : false ≡ true = (str_eq_iff ccm_component ccm_home).1 e in ground arith

-- Handlers that succeed, and the world counts their calls.
abbrev pub counting : HandlerCalls Value ExceptionInfo ℕ
counting = record {
  install_instance = λ p ref value w. (none, object ref, w + 1);
  provide_endpoint_reference = λ p ref value w. (none, object ref, w + 1);
  connect_instance = λ p ref value w. (none, w + 1);
  activate_instance = λ p ref value w. (none, w + 1);
  passivate_instance = λ p ref value w. (none, w + 1);
  remove_instance = λ p ref value w. (none, w + 1);
  disconnect_instance = λ p ref w. (none, w + 1);
  instance_configured = λ p ref w. (none, w + 1);
}

abbrev pub fetched : String → Option (HandlerCalls Value ExceptionInfo ℕ)
fetched type = some counting

abbrev pub embedded : UserKind → ExceptionInfo → Value
embedded kind ex = fault start_error ex

abbrev pub any_of : ExceptionInfo → Option Value
any_of ex = some (fault start_error ex)

abbrev pub any_of_object : Option ℕ → Value
any_of_object none = nothing
any_of_object (some n) = object n

abbrev pub one_second : Scheduled ℕ → Performed Value ℕ → ℕ
one_second event s = 1

abbrev pub starting : String → ℕ → Scheduled ℕ
starting name ref = record {
  kind = start_instance;
  name = name;
  ref = ref;
  instance_type = ccm_component;
}
