-- ===== src/Connection/Receive/Pieces.antt =====
-- Lines as they are sent over the network, of which a first piece has arrived.
use havok_rust.Base.{
  ℕ, suc, ◌≡◌, ◌≢◌, refl, sym, ap, ◌∙◌, inl, inr, ◌⊎◌, Bytes, List, [], ◌∷◌, ◌++◌, append_assoc,
  Free, All, Option-cases, none, eq_false,
}
use havok_rust.Connection.Lines.{cr}
use havok_rust.Connection.Lines.Scan.{seek, find, find-append}
use havok_rust.Connection.Lines.ReadLine.{crlf}
use havok_rust.Connection.Receive.Chunks.{with_crlf}

append-front_nil : (xs ys : Bytes) → xs ++ ys ≡ [] → ys ≡ []
append-front_nil [] ys e = e
append-front_nil (x ∷ xs) ys e = cc

-- Of two ways to cut a buffer, the first front has the second in it, or is a part of it.
fronts :
    (p q a b : Bytes)
    → p ++ q ≡ a ++ b
    → ((r : Bytes) × (p ≡ a ++ r) × (r ++ q ≡ b)) ⊎ ((r : Bytes) × (p ++ r ≡ a) × (r ≢ []))
fronts p q [] b e = inl (p, refl, e)
fronts [] q (y ∷ a) b e = inr (y ∷ a, refl, λ h. cc)
fronts (x ∷ p) q (y ∷ a) b e =
    let head : x ≡ y = cc in
    let later : p ++ q ≡ a ++ b = cc in
    elim (fronts p q a b later) [
      | inl (r, split, rest) ↦ inl (r, rw (head, split) refl, rest)
      | inr (r, split, ne) ↦ inr (r, rw (head, split) refl, ne)
    ]

-- A part of a line with its CR LF holds no line yet.
find_part :
    (k : ℕ) (p r text : Bytes)
    → Free cr text
    → p ++ r ≡ text ++ crlf
    → r ≢ []
    → find seek k p ≡ none
unfolding find
find_part k [] r text free e ne = refl
find_part k (c ∷ []) r [] free e ne = let at_cr : c ≡ cr = cc in rw at_cr
find_part k (c ∷ d ∷ p) r [] free e ne =
    let ends : p ++ r ≡ [] = cc in absurd (ne (append-front_nil p r ends))
find_part k (c ∷ p) r (x ∷ text) free e ne =
    let head : c ≡ x = cc in
    let later : p ++ r ≡ text ++ crlf = cc in
    rw (head, eq_false x cr free.0) (find_part (suc k) p r text free.1 later ne)

-- Where a buffer holds no line, its front holds none.
find_front : (p q : Bytes) → find seek 0 (p ++ q) ≡ none → find seek 0 p ≡ none
find_front p q e = elim (Option-cases (find seek 0 p)) [
  | inl missing ↦ missing
  | inr (i, found) ↦ cc (find-append seek 0 p q found)
]

module _ (from_utf8_lossy : Bytes → Bytes) where
  -- The lines of which all has arrived, the others, and the beginning of the next.
  pub record Arrived (lines : List Bytes) (tail p q : Bytes) : Type 0 where
    pub done : List Bytes
    pub left : List Bytes
    pub begun : Bytes
    pub lines_are : lines ≡ done ++ left
    pub piece_is : p ≡ with_crlf from_utf8_lossy done begun
    pub awaits : begun ++ q ≡ with_crlf from_utf8_lossy left tail
    pub open_begun : find seek 0 begun ≡ none

  one_more :
      (text : Bytes) {texts : List Bytes} {tail p r q : Bytes}
      → p ≡ (text ++ crlf) ++ r
      → Arrived texts tail r q
      → Arrived (text ∷ texts) tail p q
  one_more text {r = r} split part = record {
    done = text ∷ part.done;
    left = part.left;
    begun = part.begun;
    lines_are = ap (◌∷◌ text) part.lines_are;
    piece_is =
        split ∙ append_assoc text crlf r ∙ ap (λ (b : Bytes). text ++ (crlf ++ b)) part.piece_is;
    awaits = part.awaits;
    open_begun = part.open_begun;
  }

  pub arrived :
      (lines : List Bytes) (tail p q : Bytes)
      → All (Free cr) lines
      → find seek 0 tail ≡ none
      → p ++ q ≡ with_crlf from_utf8_lossy lines tail
      → Arrived lines tail p q
  arrived [] tail p q free open_tail e = record {
    done = [];
    left = [];
    begun = p;
    lines_are = refl;
    piece_is = refl;
    awaits = e;
    open_begun = find_front p q (ap (find seek 0) e ∙ open_tail);
  }
  arrived (text ∷ texts) tail p q free open_tail e =
      elim (fronts p q (text ++ crlf) (with_crlf from_utf8_lossy texts tail)
        (e ∙ sym (append_assoc text crlf (with_crlf from_utf8_lossy texts tail)))) [
          | inl (r, split, rest) ↦
              one_more text split (arrived texts tail r q free.1 open_tail rest)
          | inr (r, split, ne) ↦ record {
            done = [];
            left = text ∷ texts;
            begun = p;
            lines_are = refl;
            piece_is = refl;
            awaits = e;
            open_begun = find_part 0 p r text free.0 split ne;
          }
        ]
