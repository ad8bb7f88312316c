-- ===== src/Base/Run.antt =====
-- What a run of Rust code gives: a value, or a panic. A loop is run on fuel, and `out_of_fuel` is a
-- third outcome, which the theorems about each loop exclude; it also stands for a wait that never ends.
use Prim.Native.Nat.{ℕ, zero, suc}
use mathlib.Core.Path.{◌≡◌, refl}
use mathlib.Core.Bool.{Bool, true, false}
use havok_rust.Base.Tests.{if◌then◌else◌}

pub data Outcome {ℓ} (A : Type ℓ) : Type ℓ where
  ok : A → Outcome A
  panic : Outcome A
  out_of_fuel : Outcome A

infixl 5 ◌>>=◌
abbrev pub ◌>>=◌ {ℓ κ} : {A : Type ℓ} {B : Type κ} → Outcome A → (A → Outcome B) → Outcome B
ok a >>= f = f a
panic >>= f = panic
out_of_fuel >>= f = out_of_fuel

pub bind-eq-ok {ℓ κ} :
    {A : Type ℓ} {B : Type κ} (m : Outcome A) (f : A → Outcome B) {b : B}
    → (m >>= f) ≡ ok b
    → (a : A) × (m ≡ ok a) × (f a ≡ ok b)
bind-eq-ok (ok a) f h = (a, refl, h)
bind-eq-ok panic f h = cc
bind-eq-ok out_of_fuel f h = cc

pub ok-pair {ℓ κ} :
    {A : Type ℓ} {B : Type κ} {a a' : A} {b b' : B}
    → ◌≡◌ {A = Outcome (A × B)} (ok (a, b)) (ok (a', b'))
    → (a ≡ a') × (b ≡ b')
ok-pair e = (cc, cc)

-- One round of a `loop`: it goes round again in a new state, or it breaks with a result.
pub data Flow {ℓ κ} (S : Type ℓ) (R : Type κ) : Type (ℓ ⊔ κ) where
  again : S → Flow S R
  break : R → Flow S R

abbrev pub follow {ℓ κ} :
    {S : Type ℓ} {R : Type κ} → Outcome (Flow S R) → (S → Outcome R) → Outcome R
follow (ok (again s)) next = next s
follow (ok (break r)) next = ok r
follow panic next = panic
follow out_of_fuel next = out_of_fuel

-- `loop { body }`, at most `fuel` rounds of it.
unfoldable pub run_loop {ℓ κ} :
    {S : Type ℓ} {R : Type κ} → ℕ → (S → Outcome (Flow S R)) → S → Outcome R
run_loop zero body s = out_of_fuel
run_loop (suc fuel) body s = follow (body s) (run_loop fuel body)

-- A postcondition of the value, if there is one.
abbrev pub Ensures {ℓ κ} : {A : Type ℓ} → (A → Type κ) → Outcome A → Type κ
Ensures P (ok a) = P a
Ensures P panic = Unit
Ensures P out_of_fuel = Unit

pub Ensures-bind {ℓ κ μ} :
    {A : Type ℓ} {B : Type κ} (P : B → Type μ) (m : Outcome A) (f : A → Outcome B)
    → ((a : A) → m ≡ ok a → Ensures P (f a))
    → Ensures P (m >>= f)
Ensures-bind P (ok a) f h = h a refl
Ensures-bind P panic f h = tt
Ensures-bind P out_of_fuel f h = tt

pub Ensures-ok {ℓ κ} :
    {A : Type ℓ} (P : A → Type κ) (m : Outcome A) {a : A} → Ensures P m → m ≡ ok a → P a
Ensures-ok P m h e = rw e at h

pub Ensures-weaker {ℓ κ μ} :
    {A : Type ℓ} (P : A → Type κ) (Q : A → Type μ) (m : Outcome A)
    → ((a : A) → P a → Q a)
    → Ensures P m
    → Ensures Q m
Ensures-weaker P Q (ok a) f h = f a h
Ensures-weaker P Q panic f h = tt
Ensures-weaker P Q out_of_fuel f h = tt

pub Ensures-if {ℓ κ} :
    {A : Type ℓ} (P : A → Type κ) (b : Bool) (x y : Outcome A)
    → Ensures P x
    → Ensures P y
    → Ensures P (if b then x else y)
Ensures-if P true x y h k = h
Ensures-if P false x y h k = k
