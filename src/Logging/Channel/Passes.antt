-- ===== src/Logging/Channel/Passes.antt =====
-- What passes the channel of the logging thread.
use havok_rust.Base.{
  ℕ, suc, ◌≡◌, refl, ap, sym, ◌∙◌, Bytes, Bool, true, false, Bool-cases, inl, inr, List, [], ◌∷◌,
  ◌++◌, some, ok, if◌then◌else◌, leb, length, append-nil, append_assoc,
}
use havok_rust.Connection.Session.{Status, waiting, finished}
use havok_rust.Logging.{
  Level, LogMessage, Logging, LogEvent, Flags, goes_on, log_ending, on_event, log_thread, log_first,
  run_log_task, create_log_message, capacity,
}
use havok_rust.Logging.Levels.{log_at_room}
use havok_rust.Logging.Drain.{log_thread_round, log_thread_over}
use havok_rust.Logging.Channel.{Channel, LogTurn, task, log_turn, log_turns}
use havok_rust.Logging.Channel.Admitted.{admitted, length_snoc, passed, passed-cons}

abbrev pub status_of : Flags → Status
status_of f = if goes_on f then waiting else finished

module _ (enabled : Level → Bool) (logger : Logging) where
  abbrev pub at : Flags → List LogMessage → Bool → Bool → Channel
  at f queue is_waiting is_closed = record {
    flags = f;
    queue = queue;
    is_waiting = is_waiting;
    is_closed = is_closed;
  }

  -- The turns come to an end, and have given the thread these events, which have let everything through but
  -- what is in the channel at the end.
  pub record Played (c : Channel) (ts : List LogTurn) : Type 0 where
    pub last : Channel
    pub lines : List LogMessage
    pub events : List LogEvent
    pub ran : log_turns enabled logger c ts ≡ ok (last, lines)
    pub logs : log_thread enabled logger.level c.flags events ≡ (lines, status_of last.flags)
    pub all_there :
        passed events ++ last.queue
        ≡ c.queue ++ admitted c.is_closed c.is_waiting (length c.queue) ts

  pub log_turns_over :
      (c : Channel) (ts : List LogTurn)
      → goes_on c.flags ≡ false
      → log_turns enabled logger c ts ≡ ok (c, (log_ending enabled logger.level).0)
  unfolding log_turns
  log_turns_over c [] over = rw over
  log_turns_over c (t ∷ ts) over = rw over

  pub log_turns_first :
      (c u c' : Channel) (t : LogTurn) (ts : List LogTurn) (now more : List LogMessage)
      → goes_on c.flags ≡ true
      → log_turn enabled logger c t ≡ ok (u, now)
      → log_turns enabled logger u ts ≡ ok (c', more)
      → log_turns enabled logger c (t ∷ ts) ≡ ok (c', now ++ more)
  unfolding log_turns
  log_turns_first c u c' t ts now more going turned later = rw (going, turned, later) refl

  pub over-Played :
      (f : Flags) (queue : List LogMessage) (ts : List LogTurn)
      → goes_on f ≡ false
      → Played (at f queue false true) ts
  unfolding admitted
  over-Played f queue ts over = record {
    last = at f queue false true;
    lines = (log_ending enabled logger.level).0;
    events = [];
    ran = log_turns_over (at f queue false true) ts over;
    logs = log_thread_over enabled logger.level f [] over ∙ rw over refl;
    all_there = sym (append-nil queue);
  }

  -- A turn in which the thread gets an event.
  pub with_event :
      (c u : Channel) (t : LogTurn) (ts : List LogTurn) (event : LogEvent) (now : List LogMessage)
      → goes_on c.flags ≡ true
      → log_turn enabled logger c t ≡ ok (u, now)
      → on_event enabled logger.level c.flags event ≡ ok (u.flags, now)
      → passed (event ∷ []) ++ (u.queue ++ admitted u.is_closed u.is_waiting (length u.queue) ts)
        ≡ c.queue ++ admitted c.is_closed c.is_waiting (length c.queue) (t ∷ ts)
      → Played u ts
      → Played c (t ∷ ts)
  with_event c u t ts event now going turned heard count p = record {
    last = p.last;
    lines = now ++ p.lines;
    events = event ∷ p.events;
    ran = log_turns_first c u p.last t ts now p.lines going turned p.ran;
    logs =
        log_thread_round enabled logger.level c.flags u.flags event p.events now going heard
        ∙ ap (log_first now) p.logs;
    all_there =
        ap (λ (ms : List LogMessage). ms ++ p.last.queue) (passed-cons event p.events)
        ∙ append_assoc (passed (event ∷ [])) (passed p.events) p.last.queue
        ∙ ap (λ (ms : List LogMessage). passed (event ∷ []) ++ ms) p.all_there
        ∙ count;
  }

  -- A turn in which it gets none.
  pub without_event :
      (c u : Channel) (t : LogTurn) (ts : List LogTurn)
      → goes_on c.flags ≡ true
      → log_turn enabled logger c t ≡ ok (u, [])
      → u.flags ≡ c.flags
      → u.queue ++ admitted u.is_closed u.is_waiting (length u.queue) ts
        ≡ c.queue ++ admitted c.is_closed c.is_waiting (length c.queue) (t ∷ ts)
      → Played u ts
      → Played c (t ∷ ts)
  without_event c u t ts going turned same count p = record {
    last = p.last;
    lines = p.lines;
    events = p.events;
    ran = log_turns_first c u p.last t ts [] p.lines going turned p.ran;
    logs = ap (λ (f : Flags). log_thread enabled logger.level f p.events) (sym same) ∙ p.logs;
    all_there = p.all_there ∙ count;
  }

  pub run_log_task_room :
      (level : Level) (text : Bytes) (queue : List LogMessage) (tx : ℕ)
      → logger.logtx ≡ some tx
      → run_log_task logger queue (level, text) ≡ (
          if leb capacity (length queue)
          then queue
          else queue ++ (create_log_message level text ∷ []))
  unfolding run_log_task
  run_log_task_room level text queue tx e = elim (Bool-cases (leb capacity (length queue))) [
    | inl full ↦ rw (log_at_room level logger text queue tx e, full) refl
    | inr room ↦ rw (log_at_room level logger text queue tx e, room) refl
  ]

  pub task-Played :
      (f : Flags) (queue : List LogMessage) (w : Bool) (level : Level) (text : Bytes)
      (ts : List LogTurn) (tx : ℕ)
      → logger.logtx ≡ some tx
      → goes_on f ≡ true
      → ((queue' : List LogMessage) → Played (at f queue' w false) ts)
      → Played (at f queue w false) (task (level, text) ∷ ts)
  unfolding log_turn admitted
  task-Played f queue w level text ts tx e going p =
      let m = create_log_message level text in
      elim (Bool-cases (leb capacity (length queue))) [
        | inl full ↦
            without_event (at f queue w false) (at f queue w false) (task (level, text)) ts going
              (ap (λ (q : List LogMessage). ok (at f q w false, []))
                (run_log_task_room level text queue tx e ∙ rw full refl))
              refl (rw full refl) (p queue)
        | inr room ↦
            without_event (at f queue w false) (at f (queue ++ (m ∷ [])) w false)
              (task (level, text)) ts going
              (ap (λ (q : List LogMessage). ok (at f q w false, []))
                (run_log_task_room level text queue tx e ∙ rw room refl))
              refl
              (rw (room, length_snoc m queue)
                (append_assoc queue (m ∷ []) (admitted false w (suc (length queue)) ts)))
              (p (queue ++ (m ∷ [])))
      ]
