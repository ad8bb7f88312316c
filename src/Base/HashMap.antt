-- ===== src/Base/HashMap.antt =====
-- `std::collections::HashMap` as an association list with a key in at most one entry. The order of the
-- list stands for the order in which an iteration happens to visit the map.
use mathlib.Core.Path.{◌≡◌, refl}
use mathlib.Core.List.{List, [], ◌∷◌}
use mathlib.Core.Option.{Option, none, some}
use native.Mathlib.Omega.{arith}
use havok_rust.Base.Tests.{if◌then◌else◌, Bool-cases}
use havok_rust.Base.Lists.{All}
use mathlib.Core.Logic.{inl, inr}
use havok_rust.Base.Equality.{Eq}

abbrev pub HashMap {ℓ κ} : Type ℓ → Type κ → Type (ℓ ⊔ κ)
HashMap K V = List (K × V)

module _ {ℓ κ} {K : Type ℓ} {V : Type κ} ⦃e : Eq K⦄ where
  unfoldable pub get : K → HashMap K V → Option V
  get k [] = none
  get k ((j, v) ∷ m) = if e.eq j k then some v else get k m

  -- A value under the key is replaced.
  unfoldable pub insert : K → V → HashMap K V → HashMap K V
  insert k v [] = (k, v) ∷ []
  insert k v ((j, w) ∷ m) = if e.eq j k then (k, v) ∷ m else (j, w) ∷ insert k v m

  unfoldable pub remove : K → HashMap K V → HashMap K V
  remove k [] = []
  remove k ((j, w) ∷ m) = if e.eq j k then remove k m else (j, w) ∷ remove k m

  pub get-insert :
      (k j : K) (v : V) (m : HashMap K V)
      → get j (insert k v m) ≡ (if e.eq k j then some v else get j m)
  unfolding get insert
  get-insert k j v [] = refl
  get-insert k j v ((i, w) ∷ m) =
      ground (arith, e.eq_iff k j, e.eq_iff i k, e.eq_iff i j, get-insert k j v m)

  pub get-remove :
      (k j : K) (m : HashMap K V) → get j (remove k m) ≡ (if e.eq k j then none else get j m)
  unfolding get remove
  get-remove k j [] = ground arith
  get-remove k j ((i, w) ∷ m) =
      ground (arith, e.eq_iff k j, e.eq_iff i k, e.eq_iff i j, get-remove k j m)

  pub remove-All {μ} : (P : K × V → Type μ) (k : K) (m : HashMap K V) → All P m → All P (remove k m)
  unfolding remove
  remove-All P k [] h = tt
  remove-All P k ((j, w) ∷ m) h = elim (Bool-cases (e.eq j k)) [
    | inl same ↦ rw same (remove-All P k m h.1)
    | inr other ↦ rw other (h.0, remove-All P k m h.1)
  ]

  pub insert-All {μ} :
      (P : K × V → Type μ) (k : K) (v : V) (m : HashMap K V)
      → P (k, v)
      → All P m
      → All P (insert k v m)
  unfolding insert
  insert-All P k v [] new h = (new, tt)
  insert-All P k v ((j, w) ∷ m) new h = elim (Bool-cases (e.eq j k)) [
    | inl same ↦ rw same (new, h.1)
    | inr other ↦ rw other (h.0, insert-All P k v m new h.1)
  ]

  pub get-All {μ} :
      (P : K × V → Type μ) (k : K) (m : HashMap K V) {v : V} → All P m → get k m ≡ some v → P (k, v)
  unfolding get
  get-All P k [] h found = cc
  get-All P k ((j, w) ∷ m) {v} h found = elim (Bool-cases (e.eq j k)) [
    | inl same ↦
        let value : w ≡ v = cc (rw same at found) in
        let key : j ≡ k = (e.eq_iff j k).0 same in rw (← key, ← value) h.0
    | inr other ↦ get-All P k m h.1 (rw other at found)
  ]

-- A run of inserts, the first one first.
abbrev pub fill {ℓ κ} :
    {K : Type ℓ} {V : Type κ} ⦃e : Eq K⦄ → HashMap K V → HashMap K V → HashMap K V
fill m [] = m
fill m ((k, v) ∷ rest) = fill (insert k v m) rest
