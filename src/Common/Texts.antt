-- ===== src/Common/Texts.antt =====
-- Texts and byte strings as lists of numbers: code points of a `str`, bytes of a `bytes`. The two
-- agree on ASCII, which is all that the modelled protocols carry.
use Prim.Native.Nat.{ℕ}
use Prim.Native.Char.{code}
use Prim.Native.String.{String}
use mathlib.Core.Path.{◌≡◌, refl, sym}
use mathlib.Core.Logic.{◌↔◌, inl, inr}
use mathlib.Core.Bool.{Bool, true, false, ◌&&◌, ◌||◌}
use mathlib.Core.List.{List, [], ◌∷◌}
use native.Mathlib.Omega.{arith}
use vo_iphoneypot.Common.Tests.{◌==◌, Bool-cases}

abbrev pub Text : Type 0
Text = List ℕ

abbrev pub codes : String → Text
codes String.[] = []
codes (String.◌∷◌ c s) = code c ∷ codes s

-- Python's `==` on two texts.
unfoldable pub text_eq : Text → Text → Bool
text_eq [] [] = true
text_eq [] (b ∷ t) = false
text_eq (a ∷ s) [] = false
text_eq (a ∷ s) (b ∷ t) = a == b && text_eq s t

pub text_eq→eq : (s t : Text) → text_eq s t ≡ true → s ≡ t
unfolding text_eq
text_eq→eq [] [] h = refl
text_eq→eq [] (b ∷ t) h = ground arith
text_eq→eq (a ∷ s) [] h = ground arith
text_eq→eq (a ∷ s) (b ∷ t) h = ground (arith, text_eq→eq s t)

pub text_eq_refl : (s : Text) → text_eq s s ≡ true
unfolding text_eq
text_eq_refl [] = refl
text_eq_refl (a ∷ s) = ground (arith, text_eq_refl s)

pub text_eq_iff : (s t : Text) → (text_eq s t ≡ true) ↔ (s ≡ t)
text_eq_iff s t = (text_eq→eq s t, λ e. rw e (text_eq_refl t))

-- `needle in haystack`, for a list of texts.
unfoldable pub contains : Text → List Text → Bool
contains t [] = false
contains t (x ∷ xs) = text_eq x t || contains t xs

pub differ_absurd : {q w : Text} → q ≡ w → text_eq q w ≡ false → ⊥
differ_absurd {q} {w} e h = ground (arith, h, (text_eq_iff q w).1 e)

pub text_eq-false_sym : (s t : Text) → text_eq s t ≡ false → text_eq t s ≡ false
text_eq-false_sym s t h = elim (Bool-cases (text_eq t s)) [
  | inl same ↦ absurd (differ_absurd (sym (text_eq→eq t s same)) h)
  | inr other ↦ other
]
