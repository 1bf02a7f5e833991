-- ===== src/LocalityManager/Actions.antt =====
-- Actions on the manager and on what the scheduler changes: the state comes back however they end.
use dancex.Prelude.{ℕ, List, Option, none, some}
use dancex.StringMap.{SMap}
use dancex.LocalityManager.{
  LocalityManager, Result, done, raised, install_order_error, undefined, diverged,
}

abbrev pub Action : (Any S : Type 0) → Type 0 → Type 0
Action Any S A = LocalityManager Any → S → Result A × LocalityManager Any × S

infixl 5 ◌>>=◌ ◌>>◌
abbrev pub ◌>>=◌ : {Any S A B : Type 0} → Action Any S A → (A → Action Any S B) → Action Any S B
◌>>=◌ action f m s =
    let (result, n, t) = action m s in
    elim result [
      | done a ↦ f a n t
      | raised kind ex ↦ (raised kind ex, n, t)
      | install_order_error order ↦ (install_order_error order, n, t)
      | undefined ↦ (undefined, n, t)
      | diverged ↦ (diverged, n, t)
    ]

abbrev pub ◌>>◌ : {Any S B : Type 0} → Action Any S Unit → Action Any S B → Action Any S B
action >> next = action >>= λ _. next

module _ {Any S : Type 0} where
  abbrev pub pure : {A : Type 0} → A → Action Any S A
  pure a m s = (done a, m, s)

  -- A result that is computed from the manager.
  abbrev pub gets : {A : Type 0} → (LocalityManager Any → A) → Action Any S A
  gets f m s = (done (f m), m, s)

  abbrev pub lift : {A : Type 0} → Result A → Action Any S A
  lift result m s = (result, m, s)

  abbrev pub defined : {A : Type 0} → Option A → Action Any S A
  defined none = lift undefined
  defined (some a) = pure a

  abbrev pub set_handlers : SMap (List ℕ) → Action Any S Unit
  set_handlers handlers m s = (done tt, record m { instance_handlers = handlers }, s)
