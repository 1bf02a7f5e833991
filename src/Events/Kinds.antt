-- ===== src/Events/Kinds.antt =====
-- dancex11/scheduler/events/{install,endpoint,connect,configured,start,passivate,disconnect,remove}.cpp:
-- the event classes, as instances of the record `Event` of `Action_Base`.
-- The plug-ins are the records of the calls that the IDL declares; a call gives what it throws, its
-- out and inout parameters, and what it does to the world.
use dancex.Prelude.{ℕ, Option, none, String}
use dancex.Utility.Exceptions.{UserKind, start_error, stop_error, invalid_connection, ExceptionInfo}
use dancex.Split.Plan.{DeploymentPlan}
use dancex.Events.Action.{Event, EventResult, Thrown}

-- `InstanceDeploymentHandler`, its operations on instances.
pub record HandlerCalls (Any E W : Type 0) : Type 0 where
  pub install_instance : DeploymentPlan Any → ℕ → Any → W → Option (Thrown E) × Any × W
  pub provide_endpoint_reference : DeploymentPlan Any → ℕ → Any → W → Option (Thrown E) × Any × W
  pub connect_instance : DeploymentPlan Any → ℕ → Any → W → Option (Thrown E) × W
  pub activate_instance : DeploymentPlan Any → ℕ → Any → W → Option (Thrown E) × W
  pub passivate_instance : DeploymentPlan Any → ℕ → Any → W → Option (Thrown E) × W
  pub remove_instance : DeploymentPlan Any → ℕ → Any → W → Option (Thrown E) × W
  pub disconnect_instance : DeploymentPlan Any → ℕ → W → Option (Thrown E) × W
  pub instance_configured : DeploymentPlan Any → ℕ → W → Option (Thrown E) × W

-- `DeploymentInterceptor`, its operations on instances.
pub record InterceptorCalls (Any E W : Type 0) : Type 0 where
  pub pre_install : DeploymentPlan Any → ℕ → W → Option (Thrown E) × DeploymentPlan Any × W
  pub pre_disconnect : DeploymentPlan Any → ℕ → W → Option (Thrown E) × DeploymentPlan Any × W
  pub pre_connect :
      DeploymentPlan Any → ℕ → Any → W → Option (Thrown E) × DeploymentPlan Any × Any × W
  pub post_install : DeploymentPlan Any → ℕ → Any → Any → W → Option (Thrown E) × W
  pub post_endpoint_reference : DeploymentPlan Any → ℕ → Any → Any → W → Option (Thrown E) × W
  pub post_connect : DeploymentPlan Any → ℕ → Any → W → Option (Thrown E) × W
  pub post_configured : DeploymentPlan Any → ℕ → Any → W → Option (Thrown E) × W
  pub post_activate : DeploymentPlan Any → ℕ → Any → W → Option (Thrown E) × W
  pub post_passivate : DeploymentPlan Any → ℕ → Any → W → Option (Thrown E) × W
  pub post_disconnect : DeploymentPlan Any → ℕ → Any → W → Option (Thrown E) × W
  pub post_remove : DeploymentPlan Any → ℕ → Any → W → Option (Thrown E) × W

-- The plan, the member `instance_`, `ref_` or `provided_ref_` of the event, and the rest.
pub record ActionState (Any W : Type 0) : Type 0 where
  pub plan : DeploymentPlan Any
  pub value : Any
  pub world : W

abbrev pub ActionEvent : (Any E W : Type 0) → Type 0
ActionEvent Any E W =
    Event (ActionState Any W) E Any (InterceptorCalls Any E W) (HandlerCalls Any E W)

module _ {Any E W : Type 0} where
  abbrev pub with_world :
      ActionState Any W → Option (Thrown E) × W → Option (Thrown E) × ActionState Any W
  with_world s (thrown, w) = (thrown, record s { world = w })

  abbrev pub with_value :
      ActionState Any W → Option (Thrown E) × Any × W → Option (Thrown E) × ActionState Any W
  with_value s (thrown, value, w) = (thrown, record s { value = value; world = w })

  abbrev pub with_plan :
      ActionState Any W
      → Option (Thrown E) × DeploymentPlan Any × W
      → Option (Thrown E) × ActionState Any W
  with_plan s (thrown, plan, w) = (thrown, record s { plan = plan; world = w })

  abbrev pub with_all :
      ActionState Any W
      → Option (Thrown E) × DeploymentPlan Any × Any × W
      → Option (Thrown E) × ActionState Any W
  with_all s (thrown, plan, value, w) = (thrown, record { plan = plan; value = value; world = w })

  abbrev pub no_op :
      InterceptorCalls Any E W → ActionState Any W → Option (Thrown E) × ActionState Any W
  no_op di s = (none, s)

-- `create_valid_result` where it is a no-op, and where it hands out the member.
module _ {Any W : Type 0} where
  abbrev pub unchanged : ActionState Any W → EventResult Any → EventResult Any
  unchanged s result = result

  abbrev pub member : ActionState Any W → EventResult Any → EventResult Any
  member s result = record result { contents = s.value }

-- `create_unexpected_exception`, by the exception that it makes and puts into an `Any` by `<<=`.
unfoldable pub unexpected :
    {Any : Type 0} → (UserKind → ExceptionInfo → Any) → UserKind → String → String → Any
unexpected embed kind name reason = embed kind (record { name = name; reason = reason })

module _ {Any E W : Type 0} (null : Any) (embed : UserKind → ExceptionInfo → Any) where
  unfoldable pub install : String → String → ℕ → ActionEvent Any E W
  unfolding unexpected
  install name inst_type ref = record {
    name = name;
    instance_type = inst_type;
    invoke_pre_interceptor = λ di s. with_plan s (di.pre_install s.plan ref s.world);
    invoke = λ handler s. with_value s (handler.install_instance s.plan ref s.value s.world);
    invoke_post_interceptor =
        λ di excep s. with_world s (di.post_install s.plan ref s.value excep s.world);
    create_unexpected_exception = unexpected embed start_error;
    create_valid_result = member;
  }

  unfoldable pub endpoint : String → String → ℕ → ActionEvent Any E W
  unfolding unexpected
  endpoint name inst_type ref = record {
    name = name;
    instance_type = inst_type;
    invoke_pre_interceptor = no_op;
    invoke =
        λ handler s. with_value s (handler.provide_endpoint_reference s.plan ref s.value s.world);
    invoke_post_interceptor =
        λ di excep s. with_world s (di.post_endpoint_reference s.plan ref s.value excep s.world);
    create_unexpected_exception = unexpected embed start_error;
    create_valid_result = member;
  }

  unfoldable pub connect : String → String → ℕ → ActionEvent Any E W
  unfolding unexpected
  connect name inst_type ref = record {
    name = name;
    instance_type = inst_type;
    invoke_pre_interceptor = λ di s. with_all s (di.pre_connect s.plan ref s.value s.world);
    invoke = λ handler s. with_world s (handler.connect_instance s.plan ref s.value s.world);
    invoke_post_interceptor = λ di excep s. with_world s (di.post_connect s.plan ref excep s.world);
    create_unexpected_exception = unexpected embed invalid_connection;
    create_valid_result = unchanged;
  }

  unfoldable pub configured : String → String → ℕ → ActionEvent Any E W
  unfolding unexpected
  configured name inst_type ref = record {
    name = name;
    instance_type = inst_type;
    invoke_pre_interceptor = no_op;
    invoke = λ handler s. with_world s (handler.instance_configured s.plan ref s.world);
    invoke_post_interceptor =
        λ di excep s. with_world s (di.post_configured s.plan ref excep s.world);
    create_unexpected_exception = unexpected embed start_error;
    create_valid_result = unchanged;
  }

  unfoldable pub start : String → String → ℕ → ActionEvent Any E W
  unfolding unexpected
  start name inst_type ref = record {
    name = name;
    instance_type = inst_type;
    invoke_pre_interceptor = no_op;
    invoke = λ handler s. with_world s (handler.activate_instance s.plan ref null s.world);
    invoke_post_interceptor =
        λ di excep s. with_world s (di.post_activate s.plan ref excep s.world);
    create_unexpected_exception = unexpected embed start_error;
    create_valid_result = unchanged;
  }

  unfoldable pub passivate : String → String → ℕ → ActionEvent Any E W
  unfolding unexpected
  passivate name inst_type ref = record {
    name = name;
    instance_type = inst_type;
    invoke_pre_interceptor = no_op;
    invoke = λ handler s. with_world s (handler.passivate_instance s.plan ref null s.world);
    invoke_post_interceptor =
        λ di excep s. with_world s (di.post_passivate s.plan ref excep s.world);
    create_unexpected_exception = unexpected embed stop_error;
    create_valid_result = unchanged;
  }

  unfoldable pub disconnect : String → String → ℕ → ActionEvent Any E W
  unfolding unexpected
  disconnect name inst_type ref = record {
    name = name;
    instance_type = inst_type;
    invoke_pre_interceptor = λ di s. with_plan s (di.pre_disconnect s.plan ref s.world);
    invoke = λ handler s. with_world s (handler.disconnect_instance s.plan ref s.world);
    invoke_post_interceptor =
        λ di excep s. with_world s (di.post_disconnect s.plan ref excep s.world);
    create_unexpected_exception = unexpected embed invalid_connection;
    create_valid_result = unchanged;
  }

  unfoldable pub remove : String → String → ℕ → ActionEvent Any E W
  unfolding unexpected
  remove name inst_type ref = record {
    name = name;
    instance_type = inst_type;
    invoke_pre_interceptor = no_op;
    invoke = λ handler s. with_world s (handler.remove_instance s.plan ref null s.world);
    invoke_post_interceptor = λ di excep s. with_world s (di.post_remove s.plan ref excep s.world);
    create_unexpected_exception = unexpected embed stop_error;
    create_valid_result = unchanged;
  }
