-- ===== src/Events/Action/Names.antt =====
-- Whose result `Action_Base::call` sets.
use dancex.Prelude.{
  List, [], ◌∷◌, Option, none, some, Bool, String, ◌≡◌, sym, ◌∙◌, ap, arith, Option-cases, inl, inr,
}
use mathlib.Core.Option.{some-injective}
use dancex.Events.Action.{
  EventResult, Thrown, user, system, foreign, Event, Called, pre_interceptors, post_interceptors,
  initial_result, result_of, propagated, after_handler, finish, call,
}

module _ {S E Any Interceptor Handler : Type 0} (null : Any) (is_null : Any → Bool)
    (any_of : E → Option Any) (v : Event S E Any Interceptor Handler)
    (create_valid_result-id : (s : S) (r : EventResult Any)
      → (v.create_valid_result s r).id ≡ r.id) where
  -- What the future holds, if anything, has the name of the event.
  abbrev pub Named : Called S E Any → Type 0
  Named c = (r : EventResult Any) → c.holder ≡ some r → r.id ≡ v.name

  propagated-Named : (ex : Thrown E) (s : S) → Named (propagated null is_null any_of v ex s)
  unfolding propagated
  propagated-Named (user ex) s r h = ground arith
  propagated-Named (system ex) s r h = ground arith
  propagated-Named foreign s r h = ground arith

  result_of-id :
      (interceptors : List Interceptor) (excep : Any) (s : S)
      → (result_of null is_null any_of v interceptors excep s).id ≡ v.name
  unfolding result_of
  result_of-id [] excep s =
      ground (arith, create_valid_result-id s (initial_result null is_null any_of v excep))
  result_of-id (di ∷ interceptors) excep s =
      create_valid_result-id s (initial_result null is_null any_of v excep)

  finish-Named :
      (interceptors : List Interceptor) (excep : Any) (s : S)
      → Named (finish null is_null any_of v interceptors excep s)
  unfolding finish
  finish-Named interceptors excep s r h =
      elim (Option-cases (post_interceptors null is_null any_of v interceptors excep s).0) [
        | inl e ↦
            let same = some-injective _ _ (rw (e, finish) at h) in
            sym (ap (λ q. q.id) same) ∙ result_of-id interceptors excep _
        | inr (ex, e) ↦ propagated-Named ex _ r (rw (e, finish) at h)
      ]

  after_handler-Named :
      (interceptors : List Interceptor) (excep : Option Any) (s : S)
      → Named (after_handler null is_null any_of v interceptors excep s)
  unfolding after_handler
  after_handler-Named interceptors none s = propagated-Named foreign s
  after_handler-Named interceptors (some excep) s = finish-Named interceptors excep s

  pub call-Named :
      (interceptors : List Interceptor) (fetch : String → Option Handler) (s : S)
      → Named (call null is_null any_of v interceptors fetch s)
  unfolding call
  call-Named interceptors fetch s r h =
      elim (Option-cases (pre_interceptors null is_null any_of v interceptors s).0) [
        | inl e ↦ after_handler-Named interceptors _ _ r (rw (e, call) at h)
        | inr (ex, e) ↦ propagated-Named ex _ r (rw (e, call) at h)
      ]
