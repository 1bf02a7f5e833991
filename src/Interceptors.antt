-- ===== src/Interceptors.antt =====
-- dancex11/handler/interceptors/standard_error.cpp and best_effort.cpp, over
-- dancex11/core/dancex11_deploymentinterceptors_base_impl.cpp: the interceptors that decide what
-- becomes of an exception of a handler. Whether an `Any` is empty, and what
-- `throw_exception_from_any` throws, are parameters; logging is left out.
pub mod Reports
pub mod Tests
use dancex.Prelude.{ℕ, Option, none, some, Bool, if◌then◌else◌}
use dancex.Split.Plan.{DeploymentPlan}
use dancex.Events.Action.{Thrown}
use dancex.Events.Kinds.{InterceptorCalls}

module _ {Any E W : Type 0} where
  -- `DeploymentInterceptor_Base`: every operation does nothing.
  unfoldable pub deployment_interceptor_base : InterceptorCalls Any E W
  deployment_interceptor_base = record {
    pre_install = λ plan index w. (none, plan, w);
    pre_disconnect = λ plan connection w. (none, plan, w);
    pre_connect = λ plan connection reference w. (none, plan, reference, w);
    post_install = λ plan index reference exception w. (none, w);
    post_endpoint_reference = λ plan connection reference exception w. (none, w);
    post_connect = λ plan connection exception w. (none, w);
    post_configured = λ plan index exception w. (none, w);
    post_activate = λ plan index exception w. (none, w);
    post_passivate = λ plan index exception w. (none, w);
    post_disconnect = λ plan connection exception w. (none, w);
    post_remove = λ plan index exception w. (none, w);
  }

  -- It only prints the exceptions.
  unfoldable pub best_effort : InterceptorCalls Any E W
  unfolding deployment_interceptor_base
  best_effort = deployment_interceptor_base

module _ {Any E W : Type 0} (is_null : Any → Bool) (throw_exception_from_any : Any → Thrown E) where
  -- The body of each of its operations.
  unfoldable pub propagate_exception : Any → W → Option (Thrown E) × W
  propagate_exception exception w =
      if is_null exception then (none, w) else (some (throw_exception_from_any exception), w)

  unfoldable pub standard_error : InterceptorCalls Any E W
  unfolding deployment_interceptor_base propagate_exception
  standard_error = record deployment_interceptor_base {
    post_install = λ plan index reference exception w. propagate_exception exception w;
    post_connect = λ plan connection exception w. propagate_exception exception w;
    post_configured = λ plan index exception w. propagate_exception exception w;
    post_activate = λ plan index exception w. propagate_exception exception w;
    post_passivate = λ plan index exception w. propagate_exception exception w;
    post_remove = λ plan index exception w. propagate_exception exception w;
  }
