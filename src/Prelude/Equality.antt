-- ===== src/Prelude/Equality.antt =====
-- Equality tests by instance, and Go strings. A Go string is its bytes; `bytes` is for ASCII
-- literals, whose bytes are their code points.
use Prim.Native.Nat.{ℕ}
use Prim.Native.Char.{code}
use Prim.Native.String.{String}
use mathlib.Core.Path.{◌≡◌, refl}
use mathlib.Core.Logic.{◌↔◌}
use mathlib.Core.Bool.{Bool, true, false, ◌&&◌}
use mathlib.Core.List.{List, [], ◌∷◌}
use native.Mathlib.Omega.{arith}
use pulse_frix.Prelude.Tests.{nat_beq, nat_beq_iff}

-- A decided equality: `same` is the test, and `exact` says that it is equality.
pub record Eq {ℓ} (T : Type ℓ) : Type ℓ where
  pub same : T → T → Bool
  pub exact : (x y : T) → (same x y ≡ true) ↔ (x ≡ y)

infix 50 ◌==◌
-- Go's `==`.
abbrev pub ◌==◌ {ℓ} : {T : Type ℓ} ⦃d : Eq T⦄ (x y : T) → Bool
◌==◌ ⦃d⦄ x y = d.same x y

instance abbrev pub nat_eq : Eq ℕ
nat_eq = record { same = nat_beq; exact = nat_beq_iff }

abbrev pub Text : Type 0
Text = List ℕ

abbrev pub bytes : String → Text
bytes String.[] = []
bytes (String.◌∷◌ c s) = code c ∷ bytes s

unfoldable pub same_text : Text → Text → Bool
same_text [] [] = true
same_text [] (_ ∷ _) = false
same_text (_ ∷ _) [] = false
same_text (a ∷ s) (b ∷ t) = nat_beq a b && same_text s t

same_text_self : (s : Text) → same_text s s ≡ true
unfolding same_text
same_text_self [] = refl
same_text_self (a ∷ s) = ground (arith, same_text_self s)

path_of_same_text : (s t : Text) → same_text s t ≡ true → s ≡ t
unfolding same_text
path_of_same_text [] [] h = refl
path_of_same_text [] (_ ∷ _) h = cc
path_of_same_text (_ ∷ _) [] h = cc
path_of_same_text (a ∷ s) (b ∷ t) h = ground (arith, path_of_same_text s t)

same_text_of_path : (s t : Text) → s ≡ t → same_text s t ≡ true
same_text_of_path s t p = rw p (same_text_self t)

pub same_text_iff : (s t : Text) → (same_text s t ≡ true) ↔ (s ≡ t)
same_text_iff s t = (path_of_same_text s t, same_text_of_path s t)

instance abbrev pub text_eq : Eq Text
text_eq = record { same = same_text; exact = same_text_iff }

pub same_text_refl : (s : Text) → same_text s s ≡ true
same_text_refl s = same_text_self s
