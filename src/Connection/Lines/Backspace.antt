-- ===== src/Connection/Lines/Backspace.antt =====
-- The backspaces of a line as one pass with a stack: each one takes back the byte kept last, if any.
use mathlib.Core.List.{reverse, reverse-cons, reverse-reverse}
use havok_rust.Base.{
  ℕ, zero, suc, ◌+◌, ◌<◌, ◌≡◌, ◌≢◌, refl, sym, ap, ◌∙◌, inl, inr, [], ◌∷◌, ◌++◌, Bytes, none, some,
  ok, again, break, run_loop, position, position_cases, Free, ◌==◌, eq_false, if◌then◌else◌, length,
  length-append, arith, drain, drain-append, last_cases, append_assoc, append-nil, All-front, All,
}
use havok_rust.Connection.Lines.{backspace, rub_out, backspace_round, process_backspaces}

abbrev pub drop_top : Bytes → Bytes
drop_top [] = []
drop_top (x ∷ xs) = xs

-- `kept` is the stack, the last byte first.
unfoldable pub type_on : Bytes → Bytes → Bytes
type_on kept [] = reverse kept
type_on kept (c ∷ cs) = type_on (if c == backspace then drop_top kept else c ∷ kept) cs

-- What a terminal shows of the typed bytes.
unfoldable pub typed : Bytes → Bytes
unfolding type_on
typed = type_on []

type_on_char :
    (kept : Bytes) (c : ℕ) (cs : Bytes)
    → c ≢ backspace
    → type_on kept (c ∷ cs) ≡ type_on (c ∷ kept) cs
unfolding type_on
type_on_char kept c cs h =
    ap (λ b. type_on (if b then drop_top kept else c ∷ kept) cs) (eq_false c backspace h)

type_on-append :
    (kept pre rest : Bytes)
    → Free backspace pre
    → type_on kept (pre ++ rest) ≡ type_on (reverse pre ++ kept) rest
type_on-append kept [] rest free = refl
type_on-append kept (c ∷ pre) rest free =
    type_on_char kept c (pre ++ rest) free.0
    ∙ type_on-append (c ∷ kept) pre rest free.1
    ∙ ap (λ (l : Bytes). type_on l rest)
        (sym (append_assoc (reverse pre) (c ∷ []) kept)
          ∙ ap (λ (l : Bytes). l ++ kept) (sym (reverse-cons c pre)))

pub typed-Free : (b : Bytes) → Free backspace b → typed b ≡ b
unfolding typed type_on
typed-Free b free =
    ap (type_on []) (sym (append-nil b))
    ∙ type_on-append [] b [] free
    ∙ ap reverse (append-nil (reverse b))
    ∙ reverse-reverse b

-- A backspace takes the byte before it along.
typed_pair :
    (front rest : Bytes) (x : ℕ)
    → Free backspace front
    → x ≢ backspace
    → typed (front ++ (x ∷ backspace ∷ rest)) ≡ typed (front ++ rest)
unfolding typed type_on
typed_pair front rest x free h =
    type_on-append [] front (x ∷ backspace ∷ rest) free
    ∙ type_on_char (reverse front ++ []) x (backspace ∷ rest) h
    ∙ sym (type_on-append [] front rest free)

typed_first : (rest : Bytes) → typed (backspace ∷ rest) ≡ typed rest
unfolding typed type_on
typed_first rest = refl

All-last {κ} : (P : ℕ → Type κ) (xs : Bytes) (x : ℕ) → All P (xs ++ (x ∷ [])) → P x
All-last P [] x h = h.0
All-last P (y ∷ xs) x h = All-last P xs x h.1

-- A line behind a round: shorter, and with the same bytes left at the end.
abbrev Rounds : Bytes → Bytes → Bytes → Type 0
Rounds pre rest line' =
    (rub_out (length pre) (pre ++ (backspace ∷ rest)) ≡ ok line')
    × (length line' < length (pre ++ (backspace ∷ rest)))
    × (typed (pre ++ (backspace ∷ rest)) ≡ typed line')

rub_out-zero : (rest : Bytes) → rub_out 0 (backspace ∷ rest) ≡ ok rest
unfolding rub_out
rub_out-zero rest = drain-append [] (backspace ∷ []) rest 1 (omega arith)

rub_out-suc : (i : ℕ) (line : Bytes) → rub_out (suc i) line ≡ drain i (i + 2) line
unfolding rub_out
rub_out-suc i line = ground arith

rub_out_front :
    (front rest : Bytes) (x : ℕ)
    → rub_out (length (front ++ (x ∷ []))) (front ++ (x ∷ backspace ∷ rest)) ≡ ok (front ++ rest)
rub_out_front front rest x =
    let last : length (front ++ (x ∷ [])) ≡ suc (length front) =
      omega (arith, length-append front (x ∷ [])) in
    rw (last, rub_out-suc (length front) (front ++ (x ∷ backspace ∷ rest)))
      (drain-append front (x ∷ backspace ∷ []) rest (length front + 2) (omega arith))

rub_out-Rounds : (pre rest : Bytes) → Free backspace pre → (line' : Bytes) × Rounds pre rest line'
rub_out-Rounds pre rest free = elim (last_cases pre) [
  | inl e ↦ (rest, rw e (rub_out-zero rest, omega arith, typed_first rest))
  | inr (front, x, e) ↦
      let inside = rw e at free in
      (
        front ++ rest,
        rw (e, append_assoc front (x ∷ []) (backspace ∷ rest))
            (
              rub_out_front front rest x,
              omega (arith, length-append front rest, length-append front (x ∷ backspace ∷ rest)),
              typed_pair front rest x (All-front (λ y. y ≢ backspace) front (x ∷ []) inside)
                  (All-last (λ y. y ≢ backspace) front x inside),
            ),
      )
]

backspace_round_none :
    (line : Bytes) → position backspace line ≡ none → backspace_round line ≡ ok (break line)
unfolding backspace_round
backspace_round_none line e = ground arith

backspace_round-some :
    (line rest line' : Bytes) (i : ℕ)
    → position backspace line ≡ some (i, rest)
    → rub_out i line ≡ ok line'
    → backspace_round line ≡ ok (again line')
unfolding backspace_round
backspace_round-some line rest line' i e r = rw (e, backspace_round) (rw r)

run_loop-typed :
    (fuel : ℕ) (line : Bytes)
    → length line < fuel
    → run_loop fuel backspace_round line ≡ ok (typed line)
unfolding run_loop
run_loop-typed zero line h = absurd (omega arith)
run_loop-typed (suc fuel) line h = elim (position_cases backspace line) [
  | inl (free, e) ↦ rw (backspace_round_none line e, typed-Free line free)
  | inr (pre, rest, free, split, e) ↦
      let (line', round) = rub_out-Rounds pre rest free in
      rw (backspace_round-some line rest line' (length pre) e (rw split round.0)) (
        run_loop-typed fuel line' (omega (arith, ap length split, round.1))
        ∙ ap ok (sym (ap typed split ∙ round.2)))
]

-- The backspace loop, which searches from the start again after every backspace, ends on every line and
-- gives what the single pass with a stack gives.
pub process_backspaces-typed : (line : Bytes) → process_backspaces line ≡ ok (typed line)
unfolding process_backspaces
process_backspaces-typed line = run_loop-typed (suc (length line)) line (omega arith)

-- Bytes behind the last backspace are kept.
type_on-snoc :
    (kept cs : Bytes) (x : ℕ)
    → x ≢ backspace
    → type_on kept (cs ++ (x ∷ [])) ≡ type_on kept cs ++ (x ∷ [])
unfolding type_on
type_on-snoc kept [] x h = type_on_char kept x [] h ∙ reverse-cons x kept
type_on-snoc kept (c ∷ cs) x h =
    type_on-snoc (if c == backspace then drop_top kept else c ∷ kept) cs x h

pub typed-snoc :
    (cs : Bytes) (x : ℕ) → x ≢ backspace → typed (cs ++ (x ∷ [])) ≡ typed cs ++ (x ∷ [])
unfolding typed
typed-snoc = type_on-snoc []
