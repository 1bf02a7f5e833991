-- ===== src/State/Lifecycle.antt =====
-- The life of the ORB and of the root POA of `State`.
use mathlib.Core.List.{append_assoc, append-nil}
use dancex.Prelude.{List, [], ◌∷◌, ◌++◌, Option, none, some, true, false, String, ◌≡◌, arith, ◌||◌}
use dancex.Utility.{is_absent}
use dancex.State.{
  State, Destroyed, destroyed_poa, destroyed_orb, add_service_directive, has_orb, destroy_root_poa,
  destroy_orb, close, get_orb, resolve_root_poa, get_root_poa,
}

module _ {Orb Poa : Type 0} (orb_init : List String → Option Orb) (resolve : Orb → Option Poa) where
  -- The calls of a client.
  data Call : Type 0 where
    directive : String → Call
    asks_orb asks_root_poa closes : Call

  unfoldable run : Call → State Orb Poa → State Orb Poa
  unfolding add_service_directive get_orb get_root_poa close
  run (directive svcdir) s = add_service_directive svcdir s
  run asks_orb s = (get_orb orb_init s).1
  run asks_root_poa s = (get_root_poa orb_init resolve s).1
  run closes s = close s

  -- A root POA is held only while an ORB is.
  unfoldable IsValid : State Orb Poa → Type 0
  unfolding has_orb
  IsValid s = (is_absent s.root_poa || has_orb s) ≡ true

  -- Every call keeps it so that a root POA is held only while an ORB is.
  run-IsValid : (c : Call) (s : State Orb Poa) → IsValid s → IsValid (run c s)
  unfolding run add_service_directive get_orb get_root_poa close destroy_root_poa destroy_orb
      has_orb IsValid resolve_root_poa
  run-IsValid (directive svcdir) s v = v
  run-IsValid asks_orb s v = ground arith
  run-IsValid asks_root_poa s v = ground arith
  run-IsValid closes s v = ground arith

  -- What there is to destroy: the root POA, and behind it the ORB.
  abbrev held_poa : Option Poa → List (Destroyed Orb Poa)
  held_poa none = []
  held_poa (some poa) = destroyed_poa poa ∷ []

  abbrev held_orb : Option Orb → List (Destroyed Orb Poa)
  held_orb none = []
  held_orb (some orb) = destroyed_orb orb ∷ []

  -- close leaves no ORB and no root POA, and destroys those that are there once, the root POA
  -- before the ORB.
  close-destroyed :
      (s : State Orb Poa)
      → (has_orb (close s) ≡ false)
        × ((close s).root_poa ≡ none)
        × ((close s).destroyed ≡ s.destroyed ++ (held_poa s.root_poa ++ held_orb s.orb))
  unfolding close destroy_root_poa destroy_orb has_orb
  close-destroyed s = (
    ground arith,
    ground arith,
    ground (
      arith,
      append_assoc s.destroyed (held_poa s.root_poa) (held_orb s.orb),
      append-nil s.destroyed,
    ),
  )

  -- Where get_root_poa answers a root POA, a second call answers the same one and changes
  -- nothing.
  get_root_poa-again :
      (s : State Orb Poa) (poa : Poa)
      → (get_root_poa orb_init resolve s).0 ≡ some poa
      → get_root_poa orb_init resolve (get_root_poa orb_init resolve s).1
        ≡ (some poa, (get_root_poa orb_init resolve s).1)
  unfolding get_root_poa get_orb resolve_root_poa
  get_root_poa-again s poa h = ground arith
