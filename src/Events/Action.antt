-- ===== src/Events/Action.antt =====
-- dancex11/scheduler/events/action_base.cpp: `Action_Base::call`, the event of one instance.
-- The members that the derived event classes override, and through them the plugins, are the record
-- `Event`; `S` is what they change: the plan and the members of the event. `E` is a CORBA exception
-- and `any_of` makes an `Any` of it, or throws.
pub mod Results
pub mod Names
use dancex.Prelude.{
  List, [], ◌∷◌, Option, none, some, Bool, true, false, String, str_append, not, ◌≡◌, refl, arith,
  if◌then◌else◌, ap, Option-cases, ◌⊎◌, inl, inr,
}

pub record EventResult (Any : Type 0) : Type 0 where
  pub id : String
  pub exception : Bool
  pub contents : Any

pub data Thrown (E : Type 0) : Type 0 where
  user system : E → Thrown E
  foreign : Thrown E

pub record Event (S E Any Interceptor Handler : Type 0) : Type 0 where
  pub name : String
  pub instance_type : String
  pub invoke_pre_interceptor : Interceptor → S → Option (Thrown E) × S
  pub invoke : Handler → S → Option (Thrown E) × S
  pub invoke_post_interceptor : Interceptor → Any → S → Option (Thrown E) × S
  pub create_unexpected_exception : String → String → Any
  pub create_valid_result : S → EventResult Any → EventResult Any

-- What the call sets the future to, if it does, and what it returns: true for 0, false for -1, and
-- nothing where it lets an exception through.
pub record Called (S E Any : Type 0) : Type 0 where
  pub holder : Option (EventResult Any)
  pub ended : Option Bool
  pub after : S

module _ {S E Any Interceptor Handler : Type 0} (null : Any) (is_null : Any → Bool)
    (any_of : E → Option Any) (v : Event S E Any Interceptor Handler) where
  unfoldable pub pre_interceptors : List Interceptor → S → Option (Thrown E) × S
  pre_interceptors [] s = (none, s)
  pre_interceptors (di ∷ interceptors) s =
      let (thrown, t) = v.invoke_pre_interceptor di s in
      let rest = pre_interceptors interceptors t in
      elim thrown [ none ↦ rest | some ex ↦ (some ex, t) ]

  unfoldable pub post_interceptors : List Interceptor → Any → S → Option (Thrown E) × S
  post_interceptors [] excep s = (none, s)
  post_interceptors (di ∷ interceptors) excep s =
      let (thrown, t) = v.invoke_post_interceptor di excep s in
      let rest = post_interceptors interceptors excep t in
      elim thrown [ none ↦ rest | some ex ↦ (some ex, t) ]

  -- The inner `try`: the exception recorded for the instance, or one thrown while making it.
  unfoldable pub recorded : Option (Thrown E) → Option Any
  recorded none = some null
  recorded (some (user ex)) = any_of ex
  recorded (some (system ex)) = any_of ex
  recorded (some foreign) =
      some (v.create_unexpected_exception v.name "Caught unknown C++ exception from install")

  unfoldable pub invoke_handler : Option Handler → S → Option Any × S
  unfolding recorded
  invoke_handler none s = (
    some (
        v.create_unexpected_exception v.name
          (str_append "Unable to load instance handler " v.instance_type)),
    s,
  )
  invoke_handler (some handler) s = let (thrown, t) = v.invoke handler s in (recorded thrown, t)

  abbrev pub initial_result : Any → EventResult Any
  initial_result excep = record { id = v.name; exception = not (is_null excep); contents = null }

  -- The result of a call that went through, `excep` being what the handler led to.
  unfoldable pub result_of : List Interceptor → Any → S → EventResult Any
  result_of [] excep s =
      if not (is_null excep)
      then record (initial_result excep) { contents = excep }
      else v.create_valid_result s (initial_result excep)
  result_of (di ∷ interceptors) excep s = record (v.create_valid_result s (initial_result excep)) {
    exception = false;
  }

  -- The outer handlers.
  unfoldable pub propagated : Thrown E → S → Called S E Any
  propagated (user ex) s = record {
    holder = some (record {
      id = v.name;
      exception = true;
      contents = elim (any_of ex) [ none ↦ null | some any ↦ any ];
    });
    ended = some false;
    after = s;
  }
  propagated (system ex) s = record {
    holder = some (record {
      id = v.name;
      exception = true;
      contents = elim (any_of ex) [ none ↦ null | some any ↦ any ];
    });
    ended = some false;
    after = s;
  }
  propagated foreign s = record { holder = none; ended = none; after = s }

  -- From the result on.
  unfoldable pub finish : List Interceptor → Any → S → Called S E Any
  unfolding post_interceptors result_of propagated
  finish interceptors excep s =
      let (thrown, t) = post_interceptors interceptors excep s in
      elim thrown [
        | some ex ↦ propagated ex t
        | none ↦ record {
          holder = some (result_of interceptors excep t);
          ended = some true;
          after = t;
        }
      ]

  -- What goes on behind the inner `try`, which throws where no exception could be recorded.
  unfoldable pub after_handler : List Interceptor → Option Any → S → Called S E Any
  unfolding finish propagated
  after_handler interceptors none s = propagated foreign s
  after_handler interceptors (some excep) s = finish interceptors excep s

  -- `fetch` is `fetch_installation_handler`.
  unfoldable pub call : List Interceptor → (String → Option Handler) → S → Called S E Any
  unfolding pre_interceptors invoke_handler after_handler propagated
  call interceptors fetch s =
      let (thrown, t) = pre_interceptors interceptors s in
      elim thrown [
        | some ex ↦ propagated ex t
        | none ↦
            let (excep, u) = invoke_handler (fetch v.instance_type) t in
            after_handler interceptors excep u
      ]
