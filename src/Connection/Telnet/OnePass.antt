-- ===== src/Connection/Telnet/OnePass.antt =====
-- `handle_telnet_commands` searches from the start again after every command. Here it is shown to be
-- one pass over the bytes, by a machine with three states.
use havok_rust.Base.{
  ℕ, zero, suc, ◌+◌, ◌<◌, ◌≡◌, refl, sym, ap, ◌∙◌, inl, inr, Bool-cases, eq_false, follow,
  append_assoc, [], ◌∷◌, ◌++◌, Bytes, none, some, Outcome, ok, panic, ◌>>=◌, Flow, again, break,
  run_loop, position, position_cases, Free, head?, drain, drain-append, drain_outside, leb, ◌==◌,
  if◌then◌else◌, length, length-append, arith,
}
use havok_rust.Connection.Telnet.{iac, will, telnet_command, telnet_round, handle_telnet_commands}

-- Between commands; behind an IAC; behind a command that has an option.
pub data State : Type 0 where
  text command option : State

abbrev pub prepend : Bytes → Outcome Bytes → Outcome Bytes
prepend pre r = r >>= λ out. ok (pre ++ out)

-- The text of a message without its commands. Of two IACs the first is dropped and the second opens
-- a command, an IAC at the very end is kept, and a missing option is a panic.
unfoldable pub strip : State → Bytes → Outcome Bytes
strip text [] = ok []
strip text (c ∷ cs) =
    let kept = prepend (c ∷ []) (strip text cs) in if c == iac then strip command cs else kept
strip command [] = ok (iac ∷ [])
strip command (c ∷ cs) =
    let inner = strip option cs in
    let plain = strip text cs in
    let escaped = strip command cs in
    if c == iac then escaped else if leb will c then inner else plain
strip option [] = panic
strip option (c ∷ cs) = strip text cs

prepend_nil : (r : Outcome Bytes) → r ≡ prepend [] r
prepend_nil (ok out) = refl
prepend_nil _ = refl

prepend-prepend :
    (pre mid : Bytes) (r : Outcome Bytes) → prepend pre (prepend mid r) ≡ prepend (pre ++ mid) r
prepend-prepend pre mid (ok out) = ap ok (sym (append_assoc pre mid out))
prepend-prepend pre mid _ = refl

-- Text in front of a command stays.
pub strip-append :
    (pre rest : Bytes) → Free iac pre → strip text (pre ++ rest) ≡ prepend pre (strip text rest)
unfolding strip
strip-append [] rest free = prepend_nil (strip text rest)
strip-append (c ∷ pre) rest free =
    rw (eq_false c iac free.0, strip-append pre rest free.1)
      (prepend-prepend (c ∷ []) pre (strip text rest))

pub strip-Free : (b : Bytes) → Free iac b → strip text b ≡ ok b
unfolding strip
strip-Free [] free = refl
strip-Free (c ∷ b) free = rw (eq_false c iac free.0, strip-Free b free.1)

-- Where `next` is the pass for every shorter vector, a round at an IAC agrees with the pass.
module _ (next : Bytes → Outcome Bytes) (pre : Bytes) (free : Free iac pre) where
  abbrev Ends : Bytes → Type 0
  Ends rest =
      ((b : Bytes) → length b < length (pre ++ (iac ∷ rest)) → next b ≡ strip text b)
      → follow (telnet_command (pre ++ (iac ∷ rest)) (length pre) (head? rest)) next
        ≡ prepend pre (strip command rest)

  dropped :
      (mid post : Bytes) (hi : ℕ)
      → hi ≡ length pre + length mid
      → next (pre ++ post) ≡ strip text (pre ++ post)
      → follow (drain (length pre) hi (pre ++ (mid ++ post)) >>= λ b. ok (again b)) next
        ≡ prepend pre (strip text post)
  dropped mid post hi e ih = rw (drain-append pre mid post hi e) (ih ∙ strip-append pre post free)

  shorter : (mid post : Bytes) → length (pre ++ post) < length (pre ++ (iac ∷ mid ++ post))
  shorter mid post =
      omega (
        arith,
        length-append pre post,
        length-append pre (iac ∷ mid ++ post),
        length-append mid post,
      )

  option_ends :
      (c : ℕ) (rest : Bytes)
      → ((b : Bytes) → length b < length (pre ++ (iac ∷ c ∷ rest)) → next b ≡ strip text b)
      → follow
          (drain (length pre) (length pre + 3) (pre ++ (iac ∷ c ∷ rest)) >>= λ b. ok (again b))
          next
        ≡ prepend pre (strip option rest)
  unfolding strip
  option_ends c [] ih = rw (
      drain_outside (length pre) (length pre + 3) (pre ++ (iac ∷ c ∷ []))
        (omega (arith, length-append pre (iac ∷ c ∷ []))))
  option_ends c (o ∷ rest) ih =
      dropped (iac ∷ c ∷ o ∷ []) rest (length pre + 3) (omega arith)
        (ih (pre ++ rest) (shorter (c ∷ o ∷ []) rest))

  command-Ends : (rest : Bytes) → Ends rest
  unfolding strip telnet_command
  command-Ends [] ih = refl
  command-Ends (c ∷ rest) ih = elim (Bool-cases (c == iac)) [
    | inl doubled ↦ rw doubled (
        dropped (iac ∷ []) (c ∷ rest) (length pre + 1) (omega arith)
          (ih (pre ++ (c ∷ rest)) (shorter [] (c ∷ rest)))
        ∙ rw doubled)
    | inr single ↦ elim (Bool-cases (leb will c)) [
      | inl has_option ↦ rw (single, has_option) (option_ends c rest ih)
      | inr plain ↦
          rw (single, plain)
            (dropped (iac ∷ c ∷ []) rest (length pre + 2) (omega arith)
              (ih (pre ++ rest) (shorter (c ∷ []) rest)))
    ]
  ]

strip-iac :
    (pre rest : Bytes)
    → Free iac pre
    → strip text (pre ++ (iac ∷ rest)) ≡ prepend pre (strip command rest)
unfolding strip
strip-iac pre rest free = strip-append pre (iac ∷ rest) free

telnet_round_done : (b : Bytes) → position iac b ≡ none → telnet_round b ≡ ok (break b)
unfolding telnet_round
telnet_round_done b e = ground arith

telnet_round-iac :
    (b iter : Bytes) (i : ℕ)
    → position iac b ≡ some (i, iter)
    → telnet_round b ≡ telnet_command b i (head? iter)
unfolding telnet_round
telnet_round-iac b iter i e = ground arith

run_loop-strip :
    (fuel : ℕ) (b : Bytes) → length b < fuel → run_loop fuel telnet_round b ≡ strip text b
unfolding run_loop
run_loop-strip zero b h = absurd (omega arith)
run_loop-strip (suc fuel) b h = elim (position_cases iac b) [
  | inl (free, e) ↦ rw (telnet_round_done b e) (sym (strip-Free b free))
  | inr (pre, rest, free, split, e) ↦
      ap (λ (r : Outcome (Flow Bytes Bytes)). follow r (run_loop fuel telnet_round))
        (telnet_round-iac b rest (length pre) e)
      ∙ rw split (
          command-Ends (run_loop fuel telnet_round) pre free rest
            (λ c shorter_c. run_loop-strip fuel c (omega (arith, ap length split)))
          ∙ sym (strip-iac pre rest free))
]

-- The method's loop, which begins again after every command, is the single pass: for every message it
-- ends, and in the same result or the same panic.
pub handle_telnet_commands-strip : (b : Bytes) → handle_telnet_commands b ≡ strip text b
unfolding handle_telnet_commands
handle_telnet_commands-strip b = run_loop-strip (suc (length b)) b (omega arith)
