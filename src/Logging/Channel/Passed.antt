-- ===== src/Logging/Channel/Passed.antt =====
-- What the logging thread has got from its channel, behind any turns.
use havok_rust.Base.{
  ℕ, suc, ◌<◌, ◌≡◌, refl, ap, sym, ◌∙◌, Bool, true, false, List, [], ◌∷◌, ◌++◌, ok, leb, length,
  append-nil, append_assoc, arith, codes, some, none,
}
use havok_rust.Settings.{shutdown, reconfigure}
use havok_rust.Logging.{
  Level, info, LogMessage, Logging, LogEvent, logged, control, Flags, say, output, on_event,
  log_thread, create_log_message, capacity, fresh_flags,
}
use havok_rust.Logging.Levels.{log_at_room}
use havok_rust.Logging.Drain.{Open, goes_on_drained}
use havok_rust.Logging.Channel.{
  Channel, LogTurn, task, take_message, hear_signal, lagged, barrier_opens, log_turn, log_turns,
  do_log_thread,
}
use havok_rust.Logging.Channel.Admitted.{
  admitted, admitted_nil, admitted_take, admitted_reconfigure, admitted_shutdown, admitted_unopened,
  admitted_opened, admitted_waits_take, admitted_waits_signal, length_snoc, passed,
}
use havok_rust.Logging.Channel.Passes.{
  status_of, at, Played, over-Played, with_event, without_event, task-Played,
}

-- The control channel never lags.
abbrev pub IsHeard : List LogTurn → Type 0
IsHeard [] = Unit
IsHeard (lagged ∷ ts) = ⊥
IsHeard (_ ∷ ts) = IsHeard ts

module _ (enabled : Level → Bool) (logger : Logging) where
  -- A waiting thread takes no other turn.
  waits-Played :
      (f : Flags) (queue : List LogMessage) (is_closed : Bool) (t : LogTurn) (ts : List LogTurn)
      → Open enabled logger.level f
      → log_turn enabled logger (at enabled logger f queue true is_closed) t
        ≡ ok (at enabled logger f queue true is_closed, [])
      → admitted is_closed true (length queue) ts ≡ admitted is_closed true (length queue) (t ∷ ts)
      → Played enabled logger (at enabled logger f queue true is_closed) ts
      → Played enabled logger (at enabled logger f queue true is_closed) (t ∷ ts)
  waits-Played f queue is_closed t ts o turned same p =
      without_event enabled logger (at enabled logger f queue true is_closed)
        (at enabled logger f queue true is_closed) t ts o.going turned refl
        (ap (λ (ms : List LogMessage). queue ++ ms) same) p

  plays :
      (f : Flags) (queue : List LogMessage) (w is_closed : Bool) (ts : List LogTurn) (tx : ℕ)
      → logger.logtx ≡ some tx
      → Open enabled logger.level f
      → IsHeard ts
      → Played enabled logger (at enabled logger f queue w is_closed) ts
  unfolding log_turns admitted log_thread on_event
  plays f queue w is_closed [] tx e o h = record {
    last = at enabled logger f queue w is_closed;
    lines = [];
    events = [];
    ran = rw o.going refl;
    logs = rw o.going refl;
    all_there = sym (
        ap (λ (ms : List LogMessage). queue ++ ms) (admitted_nil is_closed w (length queue))
        ∙ append-nil queue);
  }
  plays f queue w true (task call ∷ ts) tx e o h =
      without_event enabled logger (at enabled logger f queue w true)
        (at enabled logger f queue w true) (task call) ts o.going refl refl refl
        (plays f queue w true ts tx e o h)
  plays f queue w false (task (level, text) ∷ ts) tx e o h =
      task-Played enabled logger f queue w level text ts tx e o.going
        (λ queue'. plays f queue' w false ts tx e o h)
  plays f queue true is_closed (take_message ∷ ts) tx e o h =
      waits-Played f queue is_closed take_message ts o refl
        (admitted_waits_take is_closed (length queue) ts) (plays f queue true is_closed ts tx e o h)
  plays f queue true is_closed (hear_signal signal ∷ ts) tx e o h =
      waits-Played f queue is_closed (hear_signal signal) ts o refl
        (admitted_waits_signal is_closed (length queue) signal ts)
        (plays f queue true is_closed ts tx e o h)
  plays f (m ∷ queue) false is_closed (take_message ∷ ts) tx e o h =
      with_event enabled logger (at enabled logger f (m ∷ queue) false is_closed)
        (at enabled logger f queue false is_closed) take_message ts (logged (some m))
        (output enabled logger.level m) o.going refl refl
        (ap (λ (ms : List LogMessage). m ∷ (queue ++ ms))
          (admitted_take is_closed (length queue) ts))
        (plays f queue false is_closed ts tx e o h)
  plays f [] false false (take_message ∷ ts) tx e o h =
      without_event enabled logger (at enabled logger f [] false false)
        (at enabled logger f [] false false) take_message ts o.going refl refl refl
        (plays f [] false false ts tx e o h)
  plays f [] false true (take_message ∷ ts) tx e o h =
      let f' : Flags = record f { draining = false; drained = true } in
      with_event enabled logger (at enabled logger f [] false true)
        (at enabled logger f' [] false true) take_message ts (logged none)
        (say enabled logger.level (codes "Logs drained.")) o.going refl refl refl
        (over-Played enabled logger f' [] ts (goes_on_drained enabled logger.level f))
  plays f queue false is_closed (hear_signal (reconfigure conf) ∷ ts) tx e o h =
      with_event enabled logger (at enabled logger f queue false is_closed)
        (at enabled logger f queue false is_closed) (hear_signal (reconfigure conf)) ts
        (control (some (reconfigure conf))) [] o.going refl refl
        (ap (λ (ms : List LogMessage). queue ++ ms)
          (admitted_reconfigure is_closed (length queue) conf ts))
        (plays f queue false is_closed ts tx e o h)
  plays f queue false is_closed (hear_signal shutdown ∷ ts) tx e o h =
      without_event enabled logger (at enabled logger f queue false is_closed)
        (at enabled logger f queue true is_closed) (hear_signal shutdown) ts o.going refl refl
        (ap (λ (ms : List LogMessage). queue ++ ms) (admitted_shutdown is_closed (length queue) ts))
        (plays f queue true is_closed ts tx e o h)
  plays f queue false is_closed (barrier_opens ∷ ts) tx e o h =
      without_event enabled logger (at enabled logger f queue false is_closed)
        (at enabled logger f queue false is_closed) barrier_opens ts o.going refl refl
        (ap (λ (ms : List LogMessage). queue ++ ms) (admitted_unopened is_closed (length queue) ts))
        (plays f queue false is_closed ts tx e o h)
  plays f queue true is_closed (barrier_opens ∷ ts) tx e o h =
      let draining : Flags = record { is_shutdown = true; draining = true; drained = false } in
      with_event enabled logger (at enabled logger f queue true is_closed)
        (at enabled logger draining queue false true) barrier_opens ts (control (some shutdown))
        (say enabled logger.level (codes "Draining logs")) o.going refl refl
        (ap (λ (ms : List LogMessage). queue ++ ms) (admitted_opened is_closed (length queue) ts))
        (plays draining queue false true ts tx e (record { going = refl; not_drained = refl }) h)
  plays f queue false is_closed (lagged ∷ ts) tx e o h = absurd h
  plays f queue true is_closed (lagged ∷ ts) tx e o h = absurd h

  -- Let the logger have its channel, with room for a message in it. Let tasks log, control signals come, the
  -- shutdown barrier open, and the logging thread take from the channel, in any order, while the control
  -- channel does not lag. Then the thread does not panic. What it has got from the channel, and behind that
  -- what is still in there, is exactly what was in it at first, the thread's own first message, and what the
  -- tasks put there before the barrier opened for the thread, those that found room, each message once and
  -- in order. Its lines are those that it logs when it gets these messages, and it is at its end or goes on
  -- as then.
  pub do_log_thread_passes :
      (queue : List LogMessage) (ts : List LogTurn) (tx : ℕ)
      → logger.logtx ≡ some tx
      → length queue < capacity
      → IsHeard ts
      → (last : Channel) × (lines : List LogMessage) × (events : List LogEvent) × (do_log_thread
            enabled logger queue ts
          ≡ ok (last, lines))
        × (log_thread enabled logger.level fresh_flags events ≡ (lines, status_of last.flags))
        × (passed events ++ last.queue
            ≡ queue
              ++ (create_log_message info (codes "Starting logging thread")
                  ∷ admitted false false (suc (length queue)) ts))
  unfolding do_log_thread
  do_log_thread_passes queue ts tx e room h =
      let m = create_log_message info (codes "Starting logging thread") in
      let free : leb capacity (length queue) ≡ false = ground arith in
      let p =
        plays fresh_flags (queue ++ (m ∷ [])) false false ts tx e
          (record { going = refl; not_drained = refl }) h in
      (
        p.last,
        p.lines,
        p.events,
        rw (log_at_room info logger (codes "Starting logging thread") queue tx e, free) p.ran,
        p.logs,
        p.all_there
            ∙ rw (length_snoc m queue)
                (append_assoc queue (m ∷ []) (admitted false false (suc (length queue)) ts)),
      )
