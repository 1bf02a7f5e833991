-- ===== src/Events/Action/Results.antt =====
-- What `Action_Base::call` leaves in the future.
use dancex.Prelude.{
  All, List, [], ◌∷◌, Option, none, some, Bool, true, false, String, ◌≡◌, refl, arith, Option-cases,
  ◌⊎◌, inl, inr,
}
use dancex.Utility.{is_absent}
use dancex.Events.Action.{
  EventResult, Thrown, user, system, foreign, Event, Called, pre_interceptors, post_interceptors,
  recorded, invoke_handler, result_of, propagated, after_handler, finish, call,
}

module _ {S E Any Interceptor Handler : Type 0} (null : Any) (is_null : Any → Bool)
    (any_of : E → Option Any) (v : Event S E Any Interceptor Handler) where
  -- The exceptions that no handler of `call` takes.
  abbrev pub is_foreign : Option (Thrown E) → Bool
  is_foreign none = false
  is_foreign (some (user ex)) = false
  is_foreign (some (system ex)) = false
  is_foreign (some foreign) = true

  -- The future is set, and the call returns.
  unfoldable pub IsAnswered : Called S E Any → Type 0
  IsAnswered c = (is_absent c.holder ≡ false) × (is_absent c.ended ≡ false)

  propagated-set :
      (ex : Thrown E) (s : S)
      → is_foreign (some ex) ≡ false
      → IsAnswered (propagated null is_null any_of v ex s)
  unfolding propagated IsAnswered
  propagated-set (user ex) s h = (refl, refl)
  propagated-set (system ex) s h = (refl, refl)
  propagated-set foreign s h = ground arith

  module _ (any_of-total : (ex : E) → is_absent (any_of ex) ≡ false) where
    recorded-some :
        (thrown : Option (Thrown E)) → is_absent (recorded null is_null any_of v thrown) ≡ false
    unfolding recorded
    recorded-some none = refl
    recorded-some (some (user ex)) = any_of-total ex
    recorded-some (some (system ex)) = any_of-total ex
    recorded-some (some foreign) = refl

    invoke_handler-recorded :
        (handler : Option Handler) (s : S)
        → is_absent (invoke_handler null is_null any_of v handler s).0 ≡ false
    unfolding invoke_handler recorded
    invoke_handler-recorded none s = refl
    invoke_handler-recorded (some handler) s = recorded-some (v.invoke handler s).0

  -- An interceptor that throws nothing but CORBA exceptions before the call, and after it.
  abbrev pub PreCorba : Interceptor → Type 0
  PreCorba di = (s : S) → is_foreign (v.invoke_pre_interceptor di s).0 ≡ false

  abbrev pub PostCorba : Interceptor → Type 0
  PostCorba di = (excep : Any) (s : S) → is_foreign (v.invoke_post_interceptor di excep s).0 ≡ false

  pre_interceptors-corba :
      (interceptors : List Interceptor) (s : S)
      → All PreCorba interceptors
      → is_foreign (pre_interceptors null is_null any_of v interceptors s).0 ≡ false
  unfolding pre_interceptors
  pre_interceptors-corba [] s h = refl
  pre_interceptors-corba (di ∷ interceptors) s h =
      ground
        (arith, h.0 s, pre_interceptors-corba interceptors (v.invoke_pre_interceptor di s).1 h.1)

  post_interceptors-corba :
      (interceptors : List Interceptor) (excep : Any) (s : S)
      → All PostCorba interceptors
      → is_foreign (post_interceptors null is_null any_of v interceptors excep s).0 ≡ false
  unfolding post_interceptors
  post_interceptors-corba [] excep s h = refl
  post_interceptors-corba (di ∷ interceptors) excep s h = ground (
    arith,
    h.0 excep s,
    post_interceptors-corba interceptors excep (v.invoke_post_interceptor di excep s).1 h.1,
  )

  finish-set :
      (interceptors : List Interceptor) (excep : Any) (s : S)
      → All PostCorba interceptors
      → IsAnswered (finish null is_null any_of v interceptors excep s)
  unfolding finish IsAnswered propagated
  finish-set interceptors excep s post =
      let h = post_interceptors-corba interceptors excep s post in
      elim (Option-cases (post_interceptors null is_null any_of v interceptors excep s).0) [
        | inl e ↦ rw (e, finish) (refl, refl)
        | inr (ex, e) ↦ rw (e, finish) (propagated-set ex _ (rw e at h))
      ]

  -- Where the interceptors throw nothing but CORBA exceptions, and an Any can be made of each
  -- exception, Action_Base::call sets the future and returns, whatever the handler throws.
  pub call-set :
      (interceptors : List Interceptor) (fetch : String → Option Handler) (s : S)
      → All PreCorba interceptors
      → All PostCorba interceptors
      → ((ex : E) → is_absent (any_of ex) ≡ false)
      → IsAnswered (call null is_null any_of v interceptors fetch s)
  unfolding call after_handler
  call-set interceptors fetch s pre post any_of-total =
      let h = pre_interceptors-corba interceptors s pre in
      elim (Option-cases (pre_interceptors null is_null any_of v interceptors s).0) [
        | inr (ex, e) ↦ rw (e, call) (propagated-set ex _ (rw e at h))
        | inl e ↦
            rw (e, call)
              (handled _ _ (invoke_handler-recorded any_of-total (fetch v.instance_type) _))
      ]
    where
      handled :
          (excep : Option Any) (u : S)
          → is_absent excep ≡ false
          → IsAnswered (after_handler null is_null any_of v interceptors excep u)
      handled none u h = ground arith
      handled (some excep) u h = finish-set interceptors excep u post

  -- Without interceptors, a CORBA exception of the handler, of which an Any that is not null can
  -- be made, is the content of the result, which is marked as an exception.
  call-exception :
      (fetch : String → Option Handler) (s : S) (handler : Handler) (ex : E) (any : Any)
      → fetch v.instance_type ≡ some handler
      → ((v.invoke handler s).0 ≡ some (user ex)) ⊎ ((v.invoke handler s).0 ≡ some (system ex))
      → any_of ex ≡ some any
      → is_null any ≡ false
      → (call null is_null any_of v [] fetch s).holder
        ≡ some (record { id = v.name; exception = true; contents = any })
  unfolding call after_handler finish invoke_handler recorded result_of post_interceptors
      pre_interceptors
  call-exception fetch s handler ex any f t a n = ground arith

  pre_interceptors-none :
      ((d : Interceptor) (t : S) → (v.invoke_pre_interceptor d t).0 ≡ none)
      → (interceptors : List Interceptor) (s : S)
      → (pre_interceptors null is_null any_of v interceptors s).0 ≡ none
  unfolding pre_interceptors
  pre_interceptors-none p [] s = refl
  pre_interceptors-none p (di ∷ interceptors) s =
      ground (arith, p di s, pre_interceptors-none p interceptors (v.invoke_pre_interceptor di s).1)

  post_interceptors-none :
      ((d : Interceptor) (excep : Any) (t : S) → (v.invoke_post_interceptor d excep t).0 ≡ none)
      → (interceptors : List Interceptor) (excep : Any) (s : S)
      → (post_interceptors null is_null any_of v interceptors excep s).0 ≡ none
  unfolding post_interceptors
  post_interceptors-none q [] excep s = refl
  post_interceptors-none q (di ∷ interceptors) excep s = ground (
    arith,
    q di excep s,
    post_interceptors-none q interceptors excep (v.invoke_post_interceptor di excep s).1,
  )

  finish-intercepted :
      (di : Interceptor) (interceptors : List Interceptor) (excep : Any) (s : S)
      → ((d : Interceptor) (any : Any) (t : S) → (v.invoke_post_interceptor d any t).0 ≡ none)
      → (r : EventResult Any) × ((finish null is_null any_of v (di ∷ interceptors) excep s).holder
          ≡ some r)
        × (r.exception ≡ false)
  unfolding finish result_of
  finish-intercepted di interceptors excep s q =
      rw (post_interceptors-none q (di ∷ interceptors) excep s, finish) (_, refl, refl)

  -- With one interceptor or more, where none throws and an Any can be made of each exception, the
  -- future is set to a result without exception, whatever the handler throws.
  call-intercepted :
      (di : Interceptor) (interceptors : List Interceptor) (fetch : String → Option Handler) (s : S)
      → ((d : Interceptor) (t : S) → (v.invoke_pre_interceptor d t).0 ≡ none)
      → ((d : Interceptor) (excep : Any) (t : S) → (v.invoke_post_interceptor d excep t).0 ≡ none)
      → ((ex : E) → is_absent (any_of ex) ≡ false)
      → (r : EventResult Any) × ((call null is_null any_of v (di ∷ interceptors) fetch s).holder
          ≡ some r)
        × (r.exception ≡ false)
  unfolding call after_handler
  call-intercepted di interceptors fetch s p q a =
      rw (pre_interceptors-none p (di ∷ interceptors) s, call)
        (finished _ _ (invoke_handler-recorded a (fetch v.instance_type) _))
    where
      finished :
          (excep : Option Any) (u : S)
          → is_absent excep ≡ false
          → (r : EventResult Any) × ((after_handler null is_null any_of v
                (di ∷ interceptors)
                excep
                u).holder
              ≡ some r)
            × (r.exception ≡ false)
      finished none u h = ground arith
      finished (some any) u h = finish-intercepted di interceptors any u q
