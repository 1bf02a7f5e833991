-- ===== src/Prelude/Options.antt =====
-- The chains of `Option` results that `do` blocks stand for, and when they give a value.
use mathlib.Core.Path.{◌≡◌, refl}
use mathlib.Core.Option.{Option, none, some, none-ne-some}

infixl 5 ◌>>=◌
abbrev pub ◌>>=◌ {ℓ κ} : {A : Type ℓ} {B : Type κ} → Option A → (A → Option B) → Option B
none >>= f = none
some a >>= f = f a

abbrev pub Defined {ℓ} : {A : Type ℓ} → Option A → Type ℓ
Defined {A} o = (a : A) × (o ≡ some a)

pub >>=-Defined {ℓ κ} :
    {A : Type ℓ} {B : Type κ} (o : Option A) (f : A → Option B)
    → Defined o
    → ((a : A) → o ≡ some a → Defined (f a))
    → Defined (o >>= f)
>>=-Defined none f (a, e) h = absurd (none-ne-some a e)
>>=-Defined (some b) f d h = h b refl
