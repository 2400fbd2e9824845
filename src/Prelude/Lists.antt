-- ===== src/Prelude/Lists.antt =====
-- Lists measured by native numbers, and predicates over all their elements.
use Prim.Native.Nat.{ℕ, suc, ◌+◌}
use mathlib.Core.Path.{◌≡◌}
use mathlib.Core.List.{List, [], ◌∷◌, ◌++◌, Memᴰ}
use mathlib.Core.Logic.{◌⊎◌, inl, inr}
use native.Mathlib.Omega.{arith}

module _ {ℓ} {A : Type ℓ} where
  abbrev pub length : List A → ℕ
  length [] = 0
  length (x ∷ xs) = suc (length xs)

  pub length-append : (xs ys : List A) → length (xs ++ ys) ≡ length xs + length ys
  length-append [] ys = omega arith
  length-append (x ∷ xs) ys = omega (arith, length-append xs ys)

module _ {ℓ κ} {A : Type ℓ} where
  abbrev pub All : (A → Type κ) → List A → Type κ
  All P [] = Unit
  All P (x ∷ xs) = P x × All P xs

module _ {ℓ κ μ} {A : Type ℓ} {P : A → Type κ} {Q : A → Type μ} where
  pub All-map : ((x : A) → P x → Q x) → (xs : List A) → All P xs → All Q xs
  All-map f [] h = tt
  All-map f (x ∷ xs) (p, h) = (f x p, All-map f xs h)

module _ {ℓ} {A : Type ℓ} where
  pub Memᴰ-append_left : (xs ys : List A) (a : A) → Memᴰ a xs → Memᴰ a (xs ++ ys)
  Memᴰ-append_left [] ys a at = elim at [ ]
  Memᴰ-append_left (x ∷ xs) ys a (Memᴰ.head e) = Memᴰ.head e
  Memᴰ-append_left (x ∷ xs) ys a (Memᴰ.tail at) = Memᴰ.tail (Memᴰ-append_left xs ys a at)

  pub Memᴰ-append_right : (xs ys : List A) (a : A) → Memᴰ a ys → Memᴰ a (xs ++ ys)
  Memᴰ-append_right [] ys a at = at
  Memᴰ-append_right (x ∷ xs) ys a at = Memᴰ.tail (Memᴰ-append_right xs ys a at)

  pub Memᴰ-append_cases : (xs ys : List A) (a : A) → Memᴰ a (xs ++ ys) → Memᴰ a xs ⊎ Memᴰ a ys
  Memᴰ-append_cases [] ys a at = inr at
  Memᴰ-append_cases (x ∷ xs) ys a (Memᴰ.head e) = inl (Memᴰ.head e)
  Memᴰ-append_cases (x ∷ xs) ys a (Memᴰ.tail at) = elim (Memᴰ-append_cases xs ys a at) [
    | inl here ↦ inl (Memᴰ.tail here)
    | inr there ↦ inr there
  ]
