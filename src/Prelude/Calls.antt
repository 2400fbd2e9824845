-- ===== src/Prelude/Calls.antt =====
-- Go calls that return a value or an error, and that may change a state: a function from the state
-- to the result and the new state.
use mathlib.Core.Path.{◌≡◌, refl, ap}
use mathlib.Core.Logic.{◌⊎◌, inl, inr}

pub data Result {ℓ κ} (E : Type ℓ) (A : Type κ) : Type (ℓ ⊔ κ) where
  ok : A → Result E A
  err : E → Result E A

pub Result-cases {ℓ κ} :
    {E : Type ℓ} {A : Type κ} (r : Result E A) → ((a : A) × (r ≡ ok a)) ⊎ ((e : E) × (r ≡ err e))
Result-cases (ok a) = inl (a, refl)
Result-cases (err e) = inr (e, refl)

abbrev pub Call {ℓ κ μ} : Type ℓ → Type κ → Type μ → Type (ℓ ⊔ κ ⊔ μ)
Call W E A = W → Result E A × W

-- `if err != nil { return err }` after each call of a chain.
infixl 5 ◌>>=◌ ◌>>◌
abbrev pub ◌>>=◌ {ℓ κ μ ν} :
    {W : Type ℓ} {E : Type κ} {A : Type μ} {B : Type ν} → Call W E A → (A → Call W E B) → Call W E B
◌>>=◌ m f w = let (r, w') = m w in elim r [ ok a ↦ f a w' | err e ↦ (err e, w') ]

abbrev pub ◌>>◌ {ℓ κ μ ν} :
    {W : Type ℓ} {E : Type κ} {A : Type μ} {B : Type ν} → Call W E A → Call W E B → Call W E B
m >> k = m >>= λ _. k

abbrev pub pure {ℓ κ μ} : {W : Type ℓ} {E : Type κ} {A : Type μ} → A → Call W E A
pure a w = (ok a, w)

abbrev pub fail {ℓ κ μ} : {W : Type ℓ} {E : Type κ} {A : Type μ} → E → Call W E A
fail e w = (err e, w)

abbrev pub map_result {ℓ κ μ} :
    {E : Type ℓ} {F : Type κ} {A : Type μ} → (E → F) → Result E A → Result F A
map_result f (ok a) = ok a
map_result f (err e) = err (f e)

-- The call with its error wrapped.
abbrev pub map_err {ℓ κ μ ν} :
    {W : Type ℓ} {E : Type κ} {F : Type μ} {A : Type ν} → (E → F) → Call W E A → Call W F A
map_err f m w = let (r, w') = m w in (map_result f r, w')

-- The call followed by a function of its result, errors included: `if err := …; err != nil`.
abbrev pub attempt {ℓ κ μ ν ξ} :
    {W : Type ℓ} {E : Type κ} {F : Type μ} {A : Type ν} {B : Type ξ}
    → Call W E A
    → (Result E A → Call W F B)
    → Call W F B
attempt m f w = let (r, w') = m w in f r w'

-- A call that cannot fail.
abbrev pub does {ℓ κ} : {W : Type ℓ} {E : Type κ} → (W → W) → Call W E (Unit {0})
does f w = (ok tt, f w)

-- The call, and what a `defer` before it does afterwards.
abbrev pub deferring {ℓ κ μ} :
    {W : Type ℓ} {E : Type κ} {A : Type μ} → (W → W) → Call W E A → Call W E A
deferring after m w = let (r, w') = m w in (r, after w')

-- How a chain goes on.
module _ {ℓ κ μ ν} {W : Type ℓ} {E : Type κ} {A : Type μ} {B : Type ν} (m : Call W E A)
    (k : Call W E B) (w : W) where
  go_on : Result E A → Result E B × W
  go_on (ok a) = k (m w).1
  go_on (err e) = (err e, (m w).1)

  >>-go_on : (r : Result E A) → (m w).0 ≡ r → (m >> k) w ≡ go_on r
  unfolding go_on
  >>-go_on r h = ap go_on h

  pub >>-ok : (a : A) → (m w).0 ≡ ok a → (m >> k) w ≡ k (m w).1
  unfolding go_on
  >>-ok a h = >>-go_on (ok a) h

  pub >>-err : (e : E) → (m w).0 ≡ err e → (m >> k) w ≡ (err e, (m w).1)
  unfolding go_on
  >>-err e h = >>-go_on (err e) h
