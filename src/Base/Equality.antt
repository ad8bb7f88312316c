-- ===== src/Base/Equality.antt =====
-- `PartialEq` and `Eq` of the source as an interface: a Boolean test that decides equality.
use mathlib.Core.Path.{◌≡◌, refl}
use mathlib.Core.Logic.{◌↔◌}
use mathlib.Core.Bool.{Bool, true, false, ◌&&◌}
use mathlib.Core.List.{List, [], ◌∷◌}
use Prim.Native.Nat.{ℕ}
use native.Mathlib.Omega.{arith}
use havok_rust.Base.Tests.{◌==◌, ==_iff}

pub record Eq {ℓ} (A : Type ℓ) : Type ℓ where
  pub eq : A → A → Bool
  pub eq_iff : (a b : A) → (eq a b ≡ true) ↔ (a ≡ b)

instance abbrev pub nat_eq : Eq ℕ
nat_eq = record { eq = ◌==◌; eq_iff = ==_iff }

module _ {ℓ} {A : Type ℓ} ⦃e : Eq A⦄ where
  abbrev pub equal : List A → List A → Bool
  equal [] [] = true
  equal (x ∷ xs) (y ∷ ys) = e.eq x y && equal xs ys
  equal _ _ = false

  pub equal_iff : (xs ys : List A) → (equal xs ys ≡ true) ↔ (xs ≡ ys)
  equal_iff (x ∷ xs) (y ∷ ys) = ground (arith, e.eq_iff x y, equal_iff xs ys)
  equal_iff _ _ = ground arith

instance abbrev pub list_eq {ℓ} : {A : Type ℓ} ⦃e : Eq A⦄ → Eq (List A)
list_eq = record { eq = equal; eq_iff = equal_iff }

pub eq_self {ℓ} : {A : Type ℓ} ⦃e : Eq A⦄ (a : A) → e.eq a a ≡ true
eq_self ⦃e⦄ a = (e.eq_iff a a).1 refl
