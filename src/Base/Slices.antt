-- ===== src/Base/Slices.antt =====
-- The slice iterator and `Vec` operations of Rust's standard library that the connection's byte
-- loops use: `iter.position`, `drain` and `split_at`, with the faults of the last two.
use mathlib.Core.List.{List, [], ◌∷◌, ◌++◌, append_assoc}
use Prim.Native.Nat.{ℕ, suc, ◌+◌, ◌<◌}
use mathlib.Core.Path.{◌≡◌, refl, ap}
use mathlib.Core.Logic.{◌≢◌, ◌⊎◌, inl, inr}
use mathlib.Core.Bool.{true, ◌&&◌}
use mathlib.Core.Option.{Option, none, some}
use native.Mathlib.Omega.{arith}
use havok_rust.Base.Tests.{leb, ◌==◌, if◌then◌else◌, ==_iff, Bool-cases}
use havok_rust.Base.Lists.{
  length, take, drop, All, length-append, take-length_append, drop-length_append,
}
use havok_rust.Base.Run.{Outcome, ok, panic}

-- Shifts a found index by one.
abbrev pub shift {ℓ} : {A : Type ℓ} → Option (ℕ × A) → Option (ℕ × A)
shift none = none
shift (some (i, rest)) = some (suc i, rest)

-- `iter.position(|&x| x == c)`: the index of the first match, counted from where the iterator
-- stands, and the iterator after it. With no match the iterator is used up.
unfoldable pub position : ℕ → List ℕ → Option (ℕ × List ℕ)
position c [] = none
position c (x ∷ xs) = let later = position c xs in if x == c then some (0, xs) else shift later

-- `iter.next()` or `iter.peek()` without the rest of the iterator.
abbrev pub head? {ℓ} : {A : Type ℓ} → List A → Option A
head? [] = none
head? (x ∷ xs) = some x

-- `vec.drain(lo..hi)`: panics if the range ends behind the vector or starts behind its end.
unfoldable pub drain {ℓ} : {A : Type ℓ} → ℕ → ℕ → List A → Outcome (List A)
drain lo hi xs = if leb lo hi && leb hi (length xs) then ok (take lo xs ++ drop hi xs) else panic

-- `slice.split_at(mid)`: panics if `mid` lies behind the slice.
unfoldable pub split_at {ℓ} : {A : Type ℓ} → ℕ → List A → Outcome (List A × List A)
split_at mid xs = if leb mid (length xs) then ok (take mid xs, drop mid xs) else panic

-- A list in which `c` does not occur.
abbrev pub Free : ℕ → List ℕ → Type 0
Free c = All (λ x. x ≢ c)

-- What a search found: the list is free of `c`, or splits at the first `c`.
abbrev pub Found : ℕ → List ℕ → Type 0
Found c xs =
    (Free c xs × (position c xs ≡ none))
    ⊎ ((pre : List ℕ) × (rest : List ℕ) × Free c pre
        × (xs ≡ pre ++ (c ∷ rest))
        × (position c xs ≡ some (length pre, rest)))

pub position_cases : (c : ℕ) (xs : List ℕ) → Found c xs
unfolding position
position_cases c [] = inl (tt, refl)
position_cases c (x ∷ xs) = elim (Bool-cases (x == c)) [
  | inl hit ↦ inr ([], xs, tt, rw ((==_iff x c).0 hit), rw hit)
  | inr miss ↦
      let differs : x ≢ c = ground (arith) in
      elim (position_cases c xs) [
        | inl (free, e) ↦ inl ((differs, free), rw (miss, e))
        | inr (pre, rest, free, split, e) ↦
            inr (x ∷ pre, rest, (differs, free), ap (◌∷◌ x) split, rw (miss, e))
      ]
]

-- Draining the middle of a list that splits in three.
pub drain-append {ℓ} :
    {A : Type ℓ} (pre mid post : List A) (hi : ℕ)
    → hi ≡ length pre + length mid
    → drain (length pre) hi (pre ++ (mid ++ post)) ≡ ok (pre ++ post)
unfolding drain
drain-append pre mid post hi e = rw (within, cut, take-length_append pre (mid ++ post))
  where
    cut : drop hi (pre ++ (mid ++ post)) ≡ post
    cut =
        rw (e, ← append_assoc pre mid post, ← length-append pre mid)
          (drop-length_append (pre ++ mid) post)

    within : (leb (length pre) hi && leb hi (length (pre ++ (mid ++ post)))) ≡ true
    within = ground (arith, length-append pre (mid ++ post), length-append mid post)

-- A range that ends behind the vector is a panic.
pub drain_outside {ℓ} :
    {A : Type ℓ} (lo hi : ℕ) (xs : List A) → length xs < hi → drain lo hi xs ≡ panic
unfolding drain
drain_outside lo hi xs h = ground arith
