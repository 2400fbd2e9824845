-- ===== src/Strings/Trimmed.antt =====
-- Cutting a text that is cut already.
use Prim.Native.Char.{Char}
use Prim.Native.String.{String}
use golang_staterpack.Prelude.{
  Bool, true, false, ◌&&◌, ◌≡◌, refl, sym, ap, ◌∙◌, inl, inr, Bool-cases,
}
use golang_staterpack.Strings.Trim.{is_empty, trim_left, trim_right, attach, trim_space, space_char}

module _ (cut : Char → Bool) where
  trim_left_idem : (s : String) → trim_left cut (trim_left cut s) ≡ trim_left cut s
  unfolding trim_left
  trim_left_idem String.[] = refl
  trim_left_idem (String.◌∷◌ c s) = elim (Bool-cases (cut c)) [
    | inl e ↦ rw e (trim_left_idem s)
    | inr e ↦ rw (e, e) refl
  ]

  attach_idem :
      (c : Char) (s : String)
      → trim_right cut s ≡ s
      → trim_right cut (attach cut c s) ≡ attach cut c s
  unfolding trim_right attach
  attach_idem c s h = elim (Bool-cases (is_empty s && cut c)) [
    | inl e ↦ rw e refl
    | inr e ↦ rw (e, h, e) refl
  ]

  trim_right_idem : (s : String) → trim_right cut (trim_right cut s) ≡ trim_right cut s
  unfolding trim_right
  trim_right_idem String.[] = refl
  trim_right_idem (String.◌∷◌ c s) = attach_idem c (trim_right cut s) (trim_right_idem s)

  trim_left-attach :
      (c : Char) (s : String) → cut c ≡ true → trim_left cut (attach cut c s) ≡ trim_left cut s
  unfolding trim_left attach
  trim_left-attach c String.[] e = rw e refl
  trim_left-attach c (String.◌∷◌ d s) e = rw e refl

  trim_left_keep :
      (c : Char) (s : String) → cut c ≡ false → trim_left cut (attach cut c s) ≡ attach cut c s
  unfolding trim_left attach
  trim_left_keep c String.[] e = rw (e, e) refl
  trim_left_keep c (String.◌∷◌ d s) e = rw e refl

  -- The two ends can be cut in either order.
  trim_comm : (s : String) → trim_right cut (trim_left cut s) ≡ trim_left cut (trim_right cut s)
  unfolding trim_left trim_right
  trim_comm String.[] = refl
  trim_comm (String.◌∷◌ c s) = elim (Bool-cases (cut c)) [
    | inl e ↦ rw e (trim_comm s ∙ sym (trim_left-attach c (trim_right cut s) e))
    | inr e ↦ rw e (sym (trim_left_keep c (trim_right cut s) e))
  ]

  trim_idem :
      (s : String)
      → trim_left cut (trim_right cut (trim_left cut (trim_right cut s)))
        ≡ trim_left cut (trim_right cut s)
  trim_idem s =
      ap (trim_left cut) (trim_comm (trim_right cut s) ∙ ap (trim_left cut) (trim_right_idem s))
      ∙ trim_left_idem (trim_right cut s)

pub trim_space_idem : (s : String) → trim_space (trim_space s) ≡ trim_space s
unfolding trim_space
trim_space_idem s = trim_idem space_char s
