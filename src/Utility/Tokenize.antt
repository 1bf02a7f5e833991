-- ===== src/Utility/Tokenize.antt =====
-- `tokenize` of dancex11/core/dancex11_utility.cpp. A C string is the list of its characters up to
-- the terminating zero.
use mathlib.Core.List.{append_assoc}
use dancex.Prelude.{
  ℕ, zero, suc, ◌<◌, List, [], ◌∷◌, ◌++◌, Option, none, some, ◌≡◌, ◌≢◌, refl, arith, ap, ◌∙◌, ◌==◌,
  if◌then◌else◌, length, All, Bool-cases, Option-cases, inl, inr, ==_iff,
}

-- The inner loop: the characters from `begin` up to `c` or the end.
unfoldable pub token_of : ℕ → List ℕ → List ℕ
token_of c [] = []
token_of c (x ∷ str) = if x == c then [] else x ∷ token_of c str

-- Where `str` stands after the test `0 != *str++`; none where that stops the loop.
unfoldable pub after_token : ℕ → List ℕ → Option (List ℕ)
after_token c [] = none
after_token c (x ∷ str) = if x == c then some str else after_token c str

-- The `do` loop, with fuel; `none` means that the fuel ran out.
unfoldable pub tokenize_loop : ℕ → ℕ → List ℕ → List (List ℕ) → Option (List (List ℕ))
unfolding token_of after_token
tokenize_loop zero c str result = none
tokenize_loop (suc fuel) c str result =
    let result' = result ++ token_of c str ∷ [] in
    elim (after_token c str) [ none ↦ some result' | some rest ↦ tokenize_loop fuel c rest result' ]

-- A round that goes on has read a separator, so the characters and one more round are enough.
unfoldable pub tokenize : List ℕ → ℕ → Option (List (List ℕ))
unfolding tokenize_loop
tokenize str c = tokenize_loop (suc (length str)) c str []

-- The tokens with the separator between them.
abbrev pub join : ℕ → List ℕ → List (List ℕ) → List ℕ
join c t [] = t
join c t (u ∷ us) = t ++ c ∷ join c u us

-- The tokens as a plain recursion on the text: the first one, and the others.
abbrev pub tokens : ℕ → List ℕ → List ℕ × List (List ℕ)
tokens c [] = ([], [])
tokens c (x ∷ str) = let (t, ts) = tokens c str in if x == c then ([], t ∷ ts) else (x ∷ t, ts)

join-cons : (x c : ℕ) (t : List ℕ) (ts : List (List ℕ)) → join c (x ∷ t) ts ≡ x ∷ join c t ts
join-cons x c t [] = refl
join-cons x c t (u ∷ us) = refl

token_of-tokens : (c : ℕ) (str : List ℕ) → token_of c str ≡ (tokens c str).0
unfolding token_of
token_of-tokens c [] = refl
token_of-tokens c (x ∷ str) = ground (arith, token_of-tokens c str)

-- What is left after the first token, and its tokens.
abbrev Rest : ℕ → List ℕ → Option (List ℕ) → List (List ℕ) → Type 0
Rest c str none ts = ts ≡ []
Rest c str (some rest) ts =
    (ts ≡ (tokens c rest).0 ∷ (tokens c rest).1) × (length rest < length str)

after_token-Rest : (c : ℕ) (str : List ℕ) → Rest c str (after_token c str) (tokens c str).1
unfolding after_token
after_token-Rest c [] = refl
after_token-Rest c (x ∷ str) = elim (Bool-cases (x == c)) [
  | inl e ↦ rw (e, after_token) (refl, omega arith)
  | inr e ↦ rw (e, after_token) (longer (after_token c str) (after_token-Rest c str))
]
  where
    longer :
        (o : Option (List ℕ)) → Rest c str o (tokens c str).1 → Rest c (x ∷ str) o (tokens c str).1
    longer none h = h
    longer (some rest) h = (h.0, omega (arith, h.1))

tokenize_loop-tokens :
    (fuel c : ℕ) (str : List ℕ) (result : List (List ℕ))
    → length str < fuel
    → tokenize_loop fuel c str result ≡ some (result ++ (tokens c str).0 ∷ (tokens c str).1)
unfolding tokenize_loop
tokenize_loop-tokens zero c str result h = absurd (omega arith)
tokenize_loop-tokens (suc fuel) c str result h = elim (Option-cases (after_token c str)) [
  | inl e ↦
      let r : (tokens c str).1 ≡ [] = rw e at (after_token-Rest c str) in
      rw (e, tokenize_loop, r, token_of-tokens c str)
  | inr (rest, e) ↦
      let r : Rest c str (some rest) (tokens c str).1 = rw e at (after_token-Rest c str) in
      rw (e, tokenize_loop, token_of-tokens c str, r.0)
        (tokenize_loop-tokens fuel c rest (result ++ (tokens c str).0 ∷ []) (omega (arith, r.1))
          ∙ ap some (append_assoc result _ _))
]

-- The loop ends within its fuel, with the tokens of the recursion.
pub tokenize-tokens :
    (str : List ℕ) (c : ℕ) → tokenize str c ≡ some ((tokens c str).0 ∷ (tokens c str).1)
unfolding tokenize
tokenize-tokens str c = tokenize_loop-tokens (suc (length str)) c str [] (omega arith)

join-tokens : (c : ℕ) (str : List ℕ) → join c (tokens c str).0 (tokens c str).1 ≡ str
join-tokens c [] = refl
join-tokens c (x ∷ str) = elim (Bool-cases (x == c)) [
  | inl e ↦ rw (e, tokens) (rw ((==_iff x c).0 e) (ap (◌∷◌ c) (join-tokens c str)))
  | inr e ↦
      rw (e, tokens)
        (join-cons x c (tokens c str).0 (tokens c str).1 ∙ ap (◌∷◌ x) (join-tokens c str))
]

abbrev pub Free : ℕ → List ℕ → Type 0
Free c t = All (λ x. x ≢ c) t

tokens-Free : (c : ℕ) (str : List ℕ) → Free c (tokens c str).0 × All (Free c) (tokens c str).1
tokens-Free c [] = (tt, tt)
tokens-Free c (x ∷ str) = elim (Bool-cases (x == c)) [
  | inl e ↦ rw (e, tokens) (tt, tokens-Free c str)
  | inr e ↦ rw (e, tokens) ((ground arith, (tokens-Free c str).0), (tokens-Free c str).1)
]

-- tokenize ends within its fuel; the tokens with the separator between them are the text again,
-- and no token holds the separator.
pub tokenize-join :
    (str : List ℕ) (c : ℕ)
    → (t : List ℕ) × (ts : List (List ℕ)) × (tokenize str c ≡ some (t ∷ ts))
      × (join c t ts ≡ str)
      × All (Free c) (t ∷ ts)
tokenize-join str c = (
  (tokens c str).0,
  (tokens c str).1,
  tokenize-tokens str c,
  join-tokens c str,
  tokens-Free c str,
)

tokens-append :
    (c : ℕ) (t : List ℕ) (str : List ℕ)
    → Free c t
    → tokens c (t ++ c ∷ str) ≡ (t, (tokens c str).0 ∷ (tokens c str).1)
tokens-append c [] str f = ground arith
tokens-append c (x ∷ t) str f = ground (arith, tokens-append c t str f.1)

tokens-one : (c : ℕ) (t : List ℕ) → Free c t → tokens c t ≡ (t, [])
tokens-one c [] f = refl
tokens-one c (x ∷ t) f = ground (arith, tokens-one c t f.1)

tokens-join :
    (c : ℕ) (t : List ℕ) (ts : List (List ℕ))
    → Free c t
    → All (Free c) ts
    → tokens c (join c t ts) ≡ (t, ts)
tokens-join c t [] f fs = tokens-one c t f
tokens-join c t (u ∷ us) f fs =
    ground (arith, tokens-append c t (join c u us) f, tokens-join c u us fs.0 fs.1)

-- Texts without the separator are read back by tokenize from their join.
pub tokenize-of_join :
    (c : ℕ) (t : List ℕ) (ts : List (List ℕ))
    → Free c t
    → All (Free c) ts
    → tokenize (join c t ts) c ≡ some (t ∷ ts)
tokenize-of_join c t ts f fs =
    ground (arith, tokenize-tokens (join c t ts) c, tokens-join c t ts f fs)
