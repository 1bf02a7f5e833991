-- ===== src/State.antt =====
-- dancex11/core/dancex11_deployment_state.{h,cpp}: `State`, the process's ORB and the arguments it is
-- created with. `ORB_init`, which answers nothing on failure, and the resolving and narrowing of the
-- root POA are parameters. `destroyed` logs what `close` destroys.
pub mod Lifecycle
use dancex.Prelude.{List, [], ◌∷◌, ◌++◌, Option, none, some, Bool, true, false, String}

pub data Destroyed (Orb Poa : Type 0) : Type 0 where
  destroyed_poa : Poa → Destroyed Orb Poa
  destroyed_orb : Orb → Destroyed Orb Poa

pub record State (Orb Poa : Type 0) : Type 0 where
  pub args : List String
  pub orb : Option Orb
  pub root_poa : Option Poa
  pub destroyed : List (Destroyed Orb Poa)

module _ {Orb Poa : Type 0} where
  abbrev pub new_state : State Orb Poa
  new_state = record { args = []; orb = none; root_poa = none; destroyed = [] }

  unfoldable pub initialize : List String → State Orb Poa → State Orb Poa
  initialize args s = record s { args = args }

  unfoldable pub add_service_directive : String → State Orb Poa → State Orb Poa
  add_service_directive svcdir s = record s {
    args = s.args ++ "-ORBSvcConfDirective" ∷ svcdir ∷ [];
  }

  unfoldable pub has_orb : State Orb Poa → Bool
  has_orb s = elim s.orb [ none ↦ false | some orb ↦ true ]

  unfoldable pub destroy_root_poa : State Orb Poa → State Orb Poa
  destroy_root_poa s = elim s.root_poa [
    | none ↦ s
    | some poa ↦ record s { root_poa = none; destroyed = s.destroyed ++ destroyed_poa poa ∷ [] }
  ]

  unfoldable pub destroy_orb : State Orb Poa → State Orb Poa
  destroy_orb s = elim s.orb [
    | none ↦ s
    | some orb ↦ record s { orb = none; destroyed = s.destroyed ++ destroyed_orb orb ∷ [] }
  ]

  unfoldable pub close : State Orb Poa → State Orb Poa
  unfolding destroy_root_poa destroy_orb
  close s = destroy_orb (destroy_root_poa s)

  unfoldable pub get_orb : (List String → Option Orb) → State Orb Poa → Option Orb × State Orb Poa
  get_orb orb_init s = elim s.orb [
    | none ↦ (orb_init s.args, record s { orb = orb_init s.args })
    | some orb ↦ (some orb, s)
  ]

  -- The part under `if (orb)`.
  unfoldable pub resolve_root_poa :
      (Orb → Option Poa) → Option Orb → State Orb Poa → Option Poa × State Orb Poa
  resolve_root_poa resolve none s = (s.root_poa, s)
  resolve_root_poa resolve (some orb) s = (resolve orb, record s { root_poa = resolve orb })

  unfoldable pub get_root_poa :
      (List String → Option Orb) → (Orb → Option Poa) → State Orb Poa → Option Poa × State Orb Poa
  unfolding get_orb resolve_root_poa
  get_root_poa orb_init resolve s = elim s.root_poa [
    | none ↦ let (orb, opened) = get_orb orb_init s in resolve_root_poa resolve orb opened
    | some poa ↦ (some poa, s)
  ]
