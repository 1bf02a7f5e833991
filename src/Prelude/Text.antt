-- ===== src/Prelude/Text.antt =====
-- `std::string` as the native text: equality, the empty text, and the order of `std::map` keys.
-- `compare` goes by code points, which is the byte order of UTF-8 and so that of `operator<`.
use Prim.Native.Nat.{Ordering}
use Prim.Native.String.{String, compare}
use text.Mathlib.Text.{◌==◌}
use text.Mathlib.TextEquality.{eq_iff, path_by_compare}
use text.Mathlib.TextPositions.{eq_refl, compare_refl}
use mathlib.Core.Path.{◌≡◌, refl}
use mathlib.Core.Logic.{◌≢◌, ◌↔◌, ◌⊎◌, inl, inr}
use mathlib.Core.Bool.{Bool, true, false}
use native.Mathlib.Omega.{arith}
pub use Prim.Native.String.{compare as str_compare, ◌++◌ as str_append}

abbrev pub str_eq : String → String → Bool
str_eq = ◌==◌

abbrev pub is_empty : String → Bool
is_empty s = s == ""

pub str_eq_iff : (s t : String) → (str_eq s t ≡ true) ↔ (s ≡ t)
str_eq_iff = eq_iff

pub str_eq_refl : (s : String) → str_eq s s ≡ true
str_eq_refl = eq_refl

pub str_compare-eq : (s t : String) → compare s t ≡ Ordering.eq → s ≡ t
str_compare-eq = path_by_compare

pub str_compare_refl : (s : String) → compare s s ≡ Ordering.eq
str_compare_refl = compare_refl

pub str_eq-ne : (s t : String) → s ≢ t → str_eq s t ≡ false
str_eq-ne s t n = ground (arith, eq_iff s t)

pub String-cases : (s t : String) → (s ≡ t) ⊎ (s ≢ t)
String-cases s t = ground (arith, eq_iff s t)

pub Ordering-cases : (o : Ordering) → (o ≡ Ordering.lt) ⊎ ((o ≡ Ordering.eq) ⊎ (o ≡ Ordering.gt))
Ordering-cases Ordering.lt = inl refl
Ordering-cases Ordering.eq = inr (inl refl)
Ordering-cases Ordering.gt = inr (inr refl)
