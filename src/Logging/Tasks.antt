-- ===== src/Logging/Tasks.antt =====
-- The tasks that the functions of src/logging.rs spawn to log, in any order.
use mathlib.Core.List.{Permᴰ}
use mathlib.Core.List.Permᴰ
use havok_rust.Base.{
  ℕ, zero, suc, true, ◌+◌, ◌-◌, ◌≤◌, ◌≡◌, refl, sym, ap, ◌∙◌, inl, inr, Bool-cases, Bytes, List, [],
  ◌∷◌, ◌++◌, some, length, take, drop, leb, append-nil, append_assoc, length-append, take-append_le,
  take-append-drop, length-drop, arith,
}
use havok_rust.Logging.{
  Level, LogMessage, Logging, create_log_message, capacity, run_log_task, run_log_tasks,
}
use havok_rust.Logging.Levels.{log_at_room, one_more_fits, messages}

take_all : (n : ℕ) (xs : List LogMessage) → length xs ≤ n → take n xs ≡ xs
take_all zero [] h = refl
take_all zero (x ∷ xs) h = absurd (omega arith)
take_all (suc n) [] h = refl
take_all (suc n) (x ∷ xs) h = ap (◌∷◌ x) (take_all n xs (omega arith))

-- A full channel holds what it holds, whatever comes behind it.
take_full :
    (queue more : List LogMessage)
    → leb capacity (length queue) ≡ true
    → length queue ≤ capacity
    → take capacity (queue ++ more) ≡ queue
take_full queue more full h =
    take-append_le capacity queue more (ground arith) ∙ take_all capacity queue h

run_log_tasks-take :
    (logger : Logging) (calls : List (Level × Bytes)) (queue : List LogMessage) (tx : ℕ)
    → logger.logtx ≡ some tx
    → length queue ≤ capacity
    → run_log_tasks logger queue calls ≡ take capacity (queue ++ messages calls)
unfolding run_log_tasks run_log_task
run_log_tasks-take logger [] queue tx e h = rw (append-nil queue, take_all capacity queue h) refl
run_log_tasks-take logger ((level, msg) ∷ calls) queue tx e h =
    elim (Bool-cases (leb capacity (length queue))) [
      | inl full ↦
          rw (log_at_room level logger msg queue tx e, full)
            (run_log_tasks-take logger calls queue tx e h
              ∙ take_full queue (messages calls) full h
              ∙ sym (take_full queue (messages ((level, msg) ∷ calls)) full h))
      | inr room ↦
          rw (log_at_room level logger msg queue tx e, room)
            (run_log_tasks-take logger calls (queue ++ (create_log_message level msg ∷ [])) tx e
                (one_more_fits (create_log_message level msg) queue room)
              ∙ ap (take capacity)
                  (append_assoc queue (create_log_message level msg ∷ []) (messages calls)))
    ]

messages-Perm :
    {calls order : List (Level × Bytes)}
    → Permᴰ calls order
    → Permᴰ (messages calls) (messages order)
messages-Perm Permᴰ.nil = Permᴰ.nil
messages-Perm (Permᴰ.cons e p) =
    Permᴰ.cons (ap (λ (c : Level × Bytes). create_log_message c.0 c.1) e) (messages-Perm p)
messages-Perm (Permᴰ.swap e e') =
    Permᴰ.swap (ap (λ (c : Level × Bytes). create_log_message c.0 c.1) e)
      (ap (λ (c : Level × Bytes). create_log_message c.0 c.1) e')
messages-Perm (Permᴰ.trans p p') = Permᴰ.trans (messages-Perm p) (messages-Perm p')

length-Perm : {calls order : List (Level × Bytes)} → Permᴰ calls order → length calls ≡ length order
length-Perm Permᴰ.nil = refl
length-Perm (Permᴰ.cons e p) = ap suc (length-Perm p)
length-Perm (Permᴰ.swap e e') = refl
length-Perm (Permᴰ.trans p p') = length-Perm p ∙ length-Perm p'

length-messages : (calls : List (Level × Bytes)) → length (messages calls) ≡ length calls
length-messages [] = refl
length-messages (call ∷ calls) = ap suc (length-messages calls)

-- Let functions of the logger, whose channel is made, be called, and let the tasks that they spawn run in any
-- order, while nothing is taken from the channel. The channel then holds, in the order of the tasks, what fits
-- in: with what it does not hold, which is as many messages as there are too many for it, it has every
-- message of before and of the calls, each once.
pub run_log_tasks-Perm :
    (logger : Logging) (calls order : List (Level × Bytes)) (queue : List LogMessage) (tx : ℕ)
    → logger.logtx ≡ some tx
    → length queue ≤ capacity
    → Permᴰ calls order
    → (lost : List LogMessage) × (run_log_tasks logger queue order ++ lost
        ≡ queue ++ messages order)
      × Permᴰ (queue ++ messages calls) (run_log_tasks logger queue order ++ lost)
      × (length lost ≡ length queue + length calls - capacity)
run_log_tasks-Perm logger calls order queue tx e h p =
    let all = queue ++ messages order in
    let whole : run_log_tasks logger queue order ++ drop capacity all ≡ all =
      ap (λ (front : List LogMessage). front ++ drop capacity all)
        (run_log_tasks-take logger order queue tx e h)
      ∙ take-append-drop capacity all in
    (
      drop capacity all,
      whole,
      rw whole (Permᴰ.append_left queue (messages-Perm p)),
      omega (
        arith,
        length-drop capacity all,
        length-append queue (messages order),
        length-messages order,
        length-Perm p,
      ),
    )
