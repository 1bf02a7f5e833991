-- ===== src/Interceptors/Reports.antt =====
-- What an event reports under one of the interceptors for exceptions.
use dancex.Prelude.{
  ℕ, [], ◌∷◌, Option, none, some, Bool, true, false, String, ◌≡◌, refl, ap, if◌then◌else◌,
}
use dancex.Utility.Exceptions.{UserKind, ExceptionInfo}
use dancex.Events.Action.{
  Thrown, user, system, foreign, Event, EventResult, call, pre_interceptors, post_interceptors,
  invoke_handler, recorded, after_handler, finish, result_of, propagated,
}
use dancex.Events.Kinds.{
  ActionEvent, ActionState, HandlerCalls, install, connect, configured, start, passivate, remove,
  endpoint, disconnect,
}
use dancex.Interceptors.{deployment_interceptor_base, standard_error, propagate_exception}

-- The events, those that Standard_Error reports first.
pub data Kind : Type 0 where
  installation connection configuration activation passivation removal reference disconnection :
      Kind

abbrev pub is_reported : Kind → Bool
is_reported reference = false
is_reported disconnection = false
is_reported _ = true

module _ {Any E W : Type 0} (null : Any) (embed : UserKind → ExceptionInfo → Any) where
  abbrev pub event_of : Kind → String → String → ℕ → ActionEvent Any E W
  event_of installation = install null embed
  event_of connection = connect null embed
  event_of configuration = configured null embed
  event_of activation = start null embed
  event_of passivation = passivate null embed
  event_of removal = remove null embed
  event_of reference = endpoint null embed
  event_of disconnection = disconnect null embed

-- The Any for a CORBA exception.
abbrev pub any_again : {E Any : Type 0} → (E → Option Any) → Thrown E → Option Any
any_again any_of (user ex) = any_of ex
any_again any_of (system ex) = any_of ex
any_again any_of foreign = none

module _ {S E Any Interceptor Handler : Type 0} (null : Any) (is_null : Any → Bool)
    (any_of : E → Option Any) (v : Event S E Any Interceptor Handler) where
  -- The Any for what a handler throws.
  abbrev pub any_thrown : Thrown E → Option Any
  any_thrown (user ex) = any_of ex
  any_thrown (system ex) = any_of ex
  any_thrown foreign =
      some (v.create_unexpected_exception v.name "Caught unknown C++ exception from install")

  -- How the call with one interceptor ends, by what that throws after the handler has thrown.
  Reported : Bool → Any → Option (EventResult Any) → Type 0
  Reported reported any holder =
      (r : EventResult Any) × (holder ≡ some r)
      × (r.exception ≡ reported)
      × ((if reported then r.contents else any) ≡ any)

  propagated-Reported :
      (thrown : Thrown E) (any : Any) (s : S)
      → any_again any_of thrown ≡ some any
      → Reported true any (propagated null is_null any_of v thrown s).holder
  unfolding propagated Reported
  propagated-Reported (user ex) any s a = rw (a, propagated) (_, refl, refl, refl)
  propagated-Reported (system ex) any s a = rw (a, propagated) (_, refl, refl, refl)
  propagated-Reported foreign any s a = cc

  finish-Reported :
      (di : Interceptor) (reported : Bool) (thrown : Thrown E) (any : Any) (s : S)
      → v.invoke_post_interceptor di any s ≡ (if reported then some thrown else none, s)
      → any_again any_of thrown ≡ some any
      → Reported reported any (finish null is_null any_of v (di ∷ []) any s).holder
  unfolding finish post_interceptors result_of Reported
  finish-Reported di true thrown any s p a =
      rw (p, finish, post_interceptors) (propagated-Reported thrown any _ a)
  finish-Reported di false thrown any s p a =
      rw (p, finish, post_interceptors) (_, refl, refl, refl)

  pre_interceptors-single :
      (di : Interceptor) (s : S)
      → v.invoke_pre_interceptor di s ≡ (none, s)
      → pre_interceptors null is_null any_of v (di ∷ []) s ≡ (none, s)
  unfolding pre_interceptors
  pre_interceptors-single di s p =
      let q : (v.invoke_pre_interceptor di s).0 ≡ none = ap (λ x. x.0) p in
      let r : (v.invoke_pre_interceptor di s).1 ≡ s = ap (λ x. x.1) p in
      rw (q, pre_interceptors, r) refl

  recorded-thrown :
      (result : Option (Thrown E)) (thrown : Thrown E) (any : Any)
      → result ≡ some thrown
      → any_thrown thrown ≡ some any
      → recorded null is_null any_of v result ≡ some any
  unfolding recorded
  recorded-thrown result (user ex) any h a = rw (h, recorded) a
  recorded-thrown result (system ex) any h a = rw (h, recorded) a
  recorded-thrown result foreign any h a = rw (h, recorded) a

  call-Reported :
      (fetch : String → Option Handler) (di : Interceptor) (reported : Bool)
      (thrown again : Thrown E) (s : S) (handler : Handler) (any : Any)
      → v.invoke_pre_interceptor di s ≡ (none, s)
      → v.invoke_post_interceptor di any (v.invoke handler s).1
        ≡ (if reported then some again else none, (v.invoke handler s).1)
      → fetch v.instance_type ≡ some handler
      → (v.invoke handler s).0 ≡ some thrown
      → any_thrown thrown ≡ some any
      → any_again any_of again ≡ some any
      → Reported reported any (call null is_null any_of v (di ∷ []) fetch s).holder
  unfolding call invoke_handler after_handler
  call-Reported fetch di reported thrown again s handler any p post f h a t =
      let single = pre_interceptors-single di s p in
      let q : (pre_interceptors null is_null any_of v (di ∷ []) s).0 ≡ none =
        ap (λ x. x.0) single in
      let r : (pre_interceptors null is_null any_of v (di ∷ []) s).1 ≡ s = ap (λ x. x.1) single in
      rw
        (
          q,
          call,
          r,
          f,
          invoke_handler,
          recorded-thrown (v.invoke handler s).0 thrown any h a,
          after_handler,
        )
        (finish-Reported di reported again any (v.invoke handler s).1 post t)

module _ {Any E W : Type 0} (null : Any) (embed : UserKind → ExceptionInfo → Any)
    (is_null : Any → Bool) (any_of : E → Option Any) (throw : Any → Thrown E) where
  pre-standard_error :
      (kind : Kind) (name inst_type : String) (ref : ℕ) (s : ActionState Any W)
      → (event_of null embed kind name inst_type ref).invoke_pre_interceptor
          (standard_error is_null throw)
          s
        ≡ (none, s)
  unfolding install connect configured start passivate remove endpoint disconnect standard_error
      deployment_interceptor_base
  pre-standard_error installation name inst_type ref s = refl
  pre-standard_error connection name inst_type ref s = refl
  pre-standard_error configuration name inst_type ref s = refl
  pre-standard_error activation name inst_type ref s = refl
  pre-standard_error passivation name inst_type ref s = refl
  pre-standard_error removal name inst_type ref s = refl
  pre-standard_error reference name inst_type ref s = refl
  pre-standard_error disconnection name inst_type ref s = refl

  post-standard_error :
      (kind : Kind) (name inst_type : String) (ref : ℕ) (excep : Any) (s : ActionState Any W)
      → is_null excep ≡ false
      → (event_of null embed kind name inst_type ref).invoke_post_interceptor
          (standard_error is_null throw)
          excep
          s
        ≡ (if is_reported kind then some (throw excep) else none, s)
  unfolding install connect configured start passivate remove endpoint disconnect standard_error
      deployment_interceptor_base propagate_exception
  post-standard_error installation name inst_type ref excep s h = rw (h, propagate_exception) refl
  post-standard_error connection name inst_type ref excep s h = rw (h, propagate_exception) refl
  post-standard_error configuration name inst_type ref excep s h = rw (h, propagate_exception) refl
  post-standard_error activation name inst_type ref excep s h = rw (h, propagate_exception) refl
  post-standard_error passivation name inst_type ref excep s h = rw (h, propagate_exception) refl
  post-standard_error removal name inst_type ref excep s h = rw (h, propagate_exception) refl
  post-standard_error reference name inst_type ref excep s h = refl
  post-standard_error disconnection name inst_type ref excep s h = refl

  -- With Standard_Error as the only interceptor, where the handler throws any exception, and the
  -- Any that is made of it is not empty and is made again of what Standard_Error throws for it,
  -- the result of the event is set; it is marked as an exception and has that Any exactly for the
  -- six kinds of events that are not the asking for a reference and not the disconnection.
  pub standard_error-reports :
      (kind : Kind) (name inst_type : String) (ref : ℕ)
      (fetch : String → Option (HandlerCalls Any E W)) (s : ActionState Any W)
      (handler : HandlerCalls Any E W) (thrown : Thrown E) (any : Any)
      → fetch inst_type ≡ some handler
      → ((event_of null embed kind name inst_type ref).invoke handler s).0 ≡ some thrown
      → any_thrown null is_null any_of
          (event_of {E = E} {W = W} null embed kind name inst_type ref)
          thrown
        ≡ some any
      → is_null any ≡ false
      → any_again any_of (throw any) ≡ some any
      → let holder =
          (call null is_null any_of
            (event_of null embed kind name inst_type ref)
            (standard_error is_null throw ∷ [])
            fetch
            s).holder in
        (r : EventResult Any) × (holder ≡ some r)
        × (r.exception ≡ is_reported kind)
        × ((if is_reported kind then r.contents else any) ≡ any)
  unfolding Reported install connect configured start passivate remove endpoint disconnect
  standard_error-reports kind name inst_type ref fetch s handler thrown any f h a n t =
      let v = event_of null embed kind name inst_type ref in
      call-Reported null is_null any_of v fetch (standard_error is_null throw) (is_reported kind)
        thrown (throw any) s handler any (pre-standard_error kind name inst_type ref s)
        (post-standard_error kind name inst_type ref any (v.invoke handler s).1 n) (typed kind) h a
        t
    where
      typed :
          (k : Kind)
          → fetch (event_of {E = E} {W = W} null embed k name inst_type ref).instance_type
            ≡ some handler
      typed installation = f
      typed connection = f
      typed configuration = f
      typed activation = f
      typed passivation = f
      typed removal = f
      typed reference = f
      typed disconnection = f
