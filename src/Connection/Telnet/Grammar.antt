-- ===== src/Connection/Telnet/Grammar.antt =====
-- What `handle_telnet_commands` does with the telnet stream of RFC 854: text, commands of two bytes,
-- and commands with an option byte; and with the sequences outside of that.
use mathlib.Core.List.{List, [], ◌∷◌, ◌++◌, append-nil}
use havok_rust.Base.{
  ℕ, suc, ◌≤◌, ◌<◌, ◌≡◌, ◌≢◌, refl, ap, ◌∙◌, inl, inr, Bool-cases, true, false, Bytes, Outcome, ok,
  panic, out_of_fuel, leb, ◌==◌, eq_false, length, All, arith,
}
use havok_rust.Connection.Telnet.{iac, will, handle_telnet_commands}
use havok_rust.Connection.Telnet.OnePass.{
  State, text, command, option, strip, prepend, handle_telnet_commands-strip,
}

-- One item of a stream.
pub data Item : Type 0 where
  char simple : ℕ → Item
  negotiation : ℕ → ℕ → Item

abbrev pub IsItem : Item → Type 0
IsItem (char c) = c ≢ iac
IsItem (simple c) = c < will
IsItem (negotiation c o) = (will ≤ c) × (c < iac)

abbrev pub encode : List Item → Bytes
encode [] = []
encode (char c ∷ items) = c ∷ encode items
encode (simple c ∷ items) = iac ∷ c ∷ encode items
encode (negotiation c o ∷ items) = iac ∷ c ∷ o ∷ encode items

abbrev pub texts : List Item → Bytes
texts [] = []
texts (char c ∷ items) = c ∷ texts items
texts (_ ∷ items) = texts items

prepend_cons :
    (c : ℕ) (pre : Bytes) (r : Outcome Bytes)
    → prepend (c ∷ []) (prepend pre r) ≡ prepend (c ∷ pre) r
prepend_cons c pre (ok out) = refl
prepend_cons c pre _ = refl

prepend_nil : (r : Outcome Bytes) → r ≡ prepend [] r
prepend_nil (ok out) = refl
prepend_nil _ = refl

leb_simple : (c : ℕ) → c < will → ((c == iac) ≡ false) × (leb will c ≡ false)
leb_simple c h = ground arith

leb_negotiation : (c : ℕ) → will ≤ c → c < iac → ((c == iac) ≡ false) × (leb will c ≡ true)
leb_negotiation c h k = ground arith

-- A well-formed stream is read to its end, whatever follows it.
pub strip-encode :
    (items : List Item) (rest : Bytes)
    → All IsItem items
    → strip text (encode items ++ rest) ≡ prepend (texts items) (strip text rest)
unfolding strip
strip-encode [] rest h = prepend_nil (strip text rest)
strip-encode (char c ∷ items) rest h =
    rw (eq_false c iac h.0, strip-encode items rest h.1)
      (prepend_cons c (texts items) (strip text rest))
strip-encode (simple c ∷ items) rest h =
    let tests = leb_simple c h.0 in rw (tests.0, tests.1) (strip-encode items rest h.1)
strip-encode (negotiation c o ∷ items) rest h =
    let tests = leb_negotiation c h.0.0 h.0.1 in rw (tests.0, tests.1) (strip-encode items rest h.1)

-- A message that is a well-formed telnet stream (text bytes other than 0xFF, two-byte commands below
-- WILL, three-byte option negotiations) gives exactly its text, in order, without a panic.
pub handle_telnet_commands-encode :
    (items : List Item)
    → All IsItem items
    → handle_telnet_commands (encode items) ≡ ok (texts items)
handle_telnet_commands-encode items h =
    rw (handle_telnet_commands-strip (encode items), ← append-nil (encode items))
      (strip-encode items [] h ∙ unfold strip in ap ok (append-nil (texts items)))

-- A message that ends behind WILL, WONT, DO or DONT, the option byte not yet received, panics.
pub handle_telnet_commands_cut :
    (items : List Item) (c : ℕ)
    → All IsItem items
    → will ≤ c
    → c < iac
    → handle_telnet_commands (encode items ++ (iac ∷ c ∷ [])) ≡ panic
handle_telnet_commands_cut items c h lo hi =
    handle_telnet_commands-strip (encode items ++ (iac ∷ c ∷ []))
    ∙ strip-encode items (iac ∷ c ∷ []) h
    ∙ unfold strip in (let tests = leb_negotiation c lo hi in rw (tests.0, tests.1))

strip_doubled :
    (c : ℕ) (rest : Bytes) → c < will → strip text (iac ∷ iac ∷ c ∷ rest) ≡ strip text rest
unfolding strip
strip_doubled c rest lt = let tests = leb_simple c lt in rw (tests.0, tests.1)

-- Behind a doubled IAC, which stands for a data byte 0xFF, a byte below WILL is lost with both IACs:
-- the message reads as if all three bytes were not there.
pub handle_telnet_commands_doubled :
    (before after : List Item) (c : ℕ)
    → All IsItem before
    → All IsItem after
    → c < will
    → handle_telnet_commands (encode before ++ (iac ∷ iac ∷ c ∷ encode after))
      ≡ ok (texts before ++ texts after)
handle_telnet_commands_doubled before after c h k lt =
    handle_telnet_commands-strip (encode before ++ (iac ∷ iac ∷ c ∷ encode after))
    ∙ strip-encode before (iac ∷ iac ∷ c ∷ encode after) h
    ∙ rw (
      strip_doubled c (encode after) lt,
      ← handle_telnet_commands-strip (encode after),
      handle_telnet_commands-encode after k,
    )

-- Free of IAC, but for one at the very end.
abbrev pub IsClean : Bytes → Type 0
IsClean [] = Unit
IsClean (c ∷ []) = Unit
IsClean (c ∷ d ∷ out) = (c ≢ iac) × IsClean (d ∷ out)

IsClean-cons : (c : ℕ) (out : Bytes) → c ≢ iac → IsClean out → IsClean (c ∷ out)
IsClean-cons c [] ne h = tt
IsClean-cons c (d ∷ out) ne h = (ne, h)

-- A panic, or a clean result no longer than the bound.
abbrev pub Bounded : ℕ → Outcome Bytes → Type 0
Bounded n (ok out) = IsClean out × (length out ≤ n)
Bounded n panic = Unit
Bounded n out_of_fuel = ⊥

Bounded-mono : (m n : ℕ) (r : Outcome Bytes) → m ≤ n → Bounded m r → Bounded n r
Bounded-mono m n (ok out) h b = (b.0, omega arith)
Bounded-mono m n panic h b = tt
Bounded-mono m n out_of_fuel h b = b

Bounded-prepend :
    (c n : ℕ) (r : Outcome Bytes) → c ≢ iac → Bounded n r → Bounded (suc n) (prepend (c ∷ []) r)
Bounded-prepend c n (ok out) ne b = (IsClean-cons c out ne b.0, omega arith)
Bounded-prepend c n panic ne b = tt
Bounded-prepend c n out_of_fuel ne b = b

-- What a state may still owe: behind an IAC one byte more than is left.
abbrev room : State → ℕ → ℕ
room command n = suc n
room _ n = n

strip-Bounded : (s : State) (b : Bytes) → Bounded (room s (length b)) (strip s b)
unfolding strip
strip-Bounded text [] = (tt, omega arith)
strip-Bounded text (c ∷ cs) = elim (Bool-cases (c == iac)) [
  | inl e ↦ rw e (strip-Bounded command cs)
  | inr e ↦
      rw e (Bounded-prepend c (length cs) (strip text cs) (ground arith) (strip-Bounded text cs))
]
strip-Bounded command [] = (tt, omega arith)
strip-Bounded command (c ∷ cs) = elim (Bool-cases (c == iac)) [
  | inl e ↦
      rw e (
        Bounded-mono (suc (length cs)) _ (strip command cs) (omega arith)
          (strip-Bounded command cs))
  | inr e ↦ elim (Bool-cases (leb will c)) [
    | inl o ↦
        rw (e, o)
          (Bounded-mono (length cs) _ (strip option cs) (omega arith) (strip-Bounded option cs))
    | inr p ↦
        rw (e, p) (Bounded-mono (length cs) _ (strip text cs) (omega arith) (strip-Bounded text cs))
  ]
]
strip-Bounded option [] = tt
strip-Bounded option (c ∷ cs) =
    Bounded-mono (length cs) _ (strip text cs) (omega arith) (strip-Bounded text cs)

-- On every message the loop ends, in a panic or in a result that holds no IAC but perhaps as its last
-- byte, and is no longer than the message.
pub handle_telnet_commands-Bounded : (b : Bytes) → Bounded (length b) (handle_telnet_commands b)
handle_telnet_commands-Bounded b = rw (handle_telnet_commands-strip b) (strip-Bounded text b)
