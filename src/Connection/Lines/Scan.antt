-- ===== src/Connection/Lines/Scan.antt =====
-- The search of `read_line` for CR LF as one pass over the buffer.
use havok_rust.Base.{
  ℕ, zero, suc, ◌+◌, ◌≤◌, ◌<◌, ◌≡◌, refl, sym, ap, ◌∙◌, inl, inr, Bool-cases, [], ◌∷◌, ◌++◌, Bytes,
  Option, none, some, Outcome, ok, follow, break, run_loop, position, position_cases, Free, ◌==◌,
  eq_false, if◌then◌else◌, length, length-append, arith,
}
use havok_rust.Connection.Lines.{cr, lf, scan_peek, scan_round, scan}

-- Looking for a CR; looking at the byte behind a CR.
pub data Mode : Type 0 where
  seek peek : Mode

-- The counter starts anew behind a CR that no LF follows, and the byte behind such a CR is skipped.
unfoldable pub find : Mode → ℕ → Bytes → Option ℕ
find seek k [] = none
find seek k (c ∷ cs) =
    let at_cr = find peek k cs in let on = find seek (suc k) cs in if c == cr then at_cr else on
find peek k [] = none
find peek k (c ∷ cs) = let on = find seek 0 cs in if c == lf then some k else on

pub find-append_cr :
    (k m : ℕ) (pre rest : Bytes)
    → m ≡ k + length pre
    → Free cr pre
    → find seek k (pre ++ (cr ∷ rest)) ≡ find peek m rest
unfolding find
find-append_cr k m [] rest e free = let same : m ≡ k = omega arith in rw same
find-append_cr k m (c ∷ pre) rest e free =
    rw (eq_false c cr free.0) (find-append_cr (suc k) m pre rest (omega arith) free.1)

pub find-Free : (k : ℕ) (b : Bytes) → Free cr b → find seek k b ≡ none
unfolding find
find-Free k [] free = refl
find-Free k (c ∷ b) free = rw (eq_false c cr free.0) (find-Free (suc k) b free.1)

-- What is found lies within the buffer, with its two bytes.
abbrev extent : Mode → ℕ
extent seek = 2
extent peek = 1

find_within :
    (m : Mode) (k : ℕ) (b : Bytes) {i : ℕ} → find m k b ≡ some i → i + extent m ≤ k + length b
unfolding find
find_within seek k [] e = cc
find_within seek k (c ∷ cs) {i} e = elim (Bool-cases (c == cr)) [
  | inl h ↦ omega (arith, find_within peek k cs {i = i} (rw h at e))
  | inr h ↦ omega (arith, find_within seek (suc k) cs {i = i} (rw h at e))
]
find_within peek k [] e = cc
find_within peek k (c ∷ cs) {i} e = elim (Bool-cases (c == lf)) [
  | inl h ↦ ground arith
  | inr h ↦ omega (arith, find_within seek 0 cs {i = i} (rw h at e))
]

pub find-le : (b : Bytes) {i : ℕ} → find seek 0 b ≡ some i → i + 2 ≤ length b
find-le b e = omega (arith, find_within seek 0 b e)

-- A line that is found stays the same when more bytes arrive.
pub find-append :
    (m : Mode) (k : ℕ) (b more : Bytes) {i : ℕ}
    → find m k b ≡ some i
    → find m k (b ++ more) ≡ some i
unfolding find
find-append seek k [] more e = cc
find-append seek k (c ∷ cs) more e = elim (Bool-cases (c == cr)) [
  | inl h ↦ rw h (find-append peek k cs more (rw h at e))
  | inr h ↦ rw h (find-append seek (suc k) cs more (rw h at e))
]
find-append peek k [] more e = cc
find-append peek k (c ∷ cs) more e = elim (Bool-cases (c == lf)) [
  | inl h ↦ rw h (rw h at e)
  | inr h ↦ rw h (find-append seek 0 cs more (rw h at e))
]

scan_round_none : (b : Bytes) → position cr b ≡ none → scan_round b ≡ ok (break none)
unfolding scan_round
scan_round_none b e = ground arith

scan_round-cr :
    (b iter : Bytes) (i : ℕ) → position cr b ≡ some (i, iter) → scan_round b ≡ ok (scan_peek i iter)
unfolding scan_round
scan_round-cr b iter i e = ground arith

-- Where `next` is the pass for every shorter iterator, a round at a CR agrees with the pass.
peek_ends :
    (next : Bytes → Outcome (Option ℕ)) (k : ℕ) (rest : Bytes)
    → ((b : Bytes) → length b < length rest → next b ≡ ok (find seek 0 b))
    → follow (ok (scan_peek k rest)) next ≡ ok (find peek k rest)
unfolding find scan_peek
peek_ends next k [] ih = refl
peek_ends next k (c ∷ rest) ih = elim (Bool-cases (c == lf)) [
  | inl h ↦ rw h
  | inr h ↦ rw h (ih rest (omega arith))
]

run_loop-find :
    (fuel : ℕ) (b : Bytes) → length b < fuel → run_loop fuel scan_round b ≡ ok (find seek 0 b)
unfolding run_loop
run_loop-find zero b h = absurd (omega arith)
run_loop-find (suc fuel) b h = elim (position_cases cr b) [
  | inl (free, e) ↦ rw (scan_round_none b e, find-Free 0 b free)
  | inr (pre, rest, free, split, e) ↦ rw (scan_round-cr b rest (length pre) e) (
      peek_ends (run_loop fuel scan_round) (length pre) rest (λ c lt.
        run_loop-find fuel c (omega (arith, ap length split, length-append pre (cr ∷ rest))))
      ∙ ap ok (
          sym (ap (find seek 0) split ∙ find-append_cr 0 (length pre) pre rest (omega arith) free)))
]

pub scan-find : (s : Bytes) → scan s ≡ ok (find seek 0 s)
unfolding scan
scan-find s = run_loop-find (suc (length s)) s (omega arith)
