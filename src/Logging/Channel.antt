-- ===== src/Logging/Channel.antt =====
-- src/logging.rs: the logging thread at its channel, and the tasks that log, in any order.
pub mod Admitted
pub mod Passes
pub mod Passed
use havok_rust.Base.{
  Bytes, codes, Bool, true, false, List, [], ◌∷◌, ◌++◌, Option, none, some, Outcome, ok,
  if◌then◌else◌, ◌>>=◌,
}
use havok_rust.Settings.{ControlSignal, shutdown, reconfigure}
use havok_rust.Logging.{
  Level, LogMessage, Logging, LogEvent, logged, control, Flags, goes_on, log_ending, log_at, info,
  fresh_flags, on_event, run_log_task,
}

-- The flags of the thread; its channel, with what is in it; whether the thread waits at the shutdown barrier;
-- and whether it has closed the channel.
pub record Channel : Type 0 where
  pub flags : Flags
  pub queue : List LogMessage
  pub is_waiting : Bool
  pub is_closed : Bool

-- A task that logs runs; the thread takes from its channel; it hears a control signal, or that it has missed
-- some, which is an error of the control channel; the shutdown barrier opens, which may happen at any time
-- here, or never.
pub data LogTurn : Type 0 where
  task : Level × Bytes → LogTurn
  take_message : LogTurn
  hear_signal : ControlSignal → LogTurn
  lagged : LogTurn
  barrier_opens : LogTurn

-- What `logrx.recv()` gives: it waits on an empty channel, unless that is closed.
abbrev pub received : Bool → List LogMessage → Option LogEvent
received is_closed (message ∷ queue) = some (logged (some message))
received true [] = some (logged none)
received false [] = none

abbrev pub rest : List LogMessage → List LogMessage
rest [] = []
rest (message ∷ queue) = queue

module _ (enabled : Level → Bool) (logger : Logging) where
  abbrev pub Turned : Type 0
  Turned = Outcome (Channel × List LogMessage)

  -- A round of the thread.
  abbrev pub round : Channel → Option LogEvent → List LogMessage → Bool → Turned
  round c none queue is_closed = ok (c, [])
  round c (some event) queue is_closed = do
    (flags, lines) ← on_event enabled logger.level c.flags event
    ok (record { flags = flags; queue = queue; is_waiting = false; is_closed = is_closed }, lines)

  -- A turn of the thread, which may be waiting at the barrier. The flags of a shutdown are set together with
  -- what it does behind the barrier, since nothing looks at them in between.
  abbrev pub thread_turn : Bool → Channel → LogTurn → Turned
  thread_turn false c take_message =
      round c (received c.is_closed c.queue) (rest c.queue) c.is_closed
  thread_turn false c (hear_signal shutdown) = ok (record c { is_waiting = true }, [])
  thread_turn false c (hear_signal (reconfigure conf)) =
      round c (some (control (some (reconfigure conf)))) c.queue c.is_closed
  thread_turn false c lagged = round c (some (control none)) c.queue c.is_closed
  thread_turn true c barrier_opens = round c (some (control (some shutdown))) c.queue true
  thread_turn is_waiting c t = ok (c, [])

  -- `try_send` on a closed channel fails, and its `unwrap` ends the task.
  unfoldable pub log_turn : Channel → LogTurn → Turned
  unfolding on_event run_log_task
  log_turn c (task call) =
      if c.is_closed
      then ok (c, [])
      else ok (record c { queue = run_log_task logger c.queue call }, [])
  log_turn c t = thread_turn c.is_waiting c t

  -- `while (!shutdown || draining) && !drained`, and what is said behind it.
  unfoldable pub log_turns : Channel → List LogTurn → Turned
  unfolding log_turn
  log_turns c [] =
      if goes_on c.flags then ok (c, []) else ok (c, (log_ending enabled logger.level).0)
  log_turns c (t ∷ ts) =
      let rest = (do
        (c', lines) ← log_turn c t
        (c'', more) ← log_turns c' ts
        ok (c'', lines ++ more)) in
      if goes_on c.flags then rest else ok (c, (log_ending enabled logger.level).0)

  -- The thread from its own first message on, which goes into the channel as any other.
  unfoldable pub do_log_thread : List LogMessage → List LogTurn → Turned
  unfolding log_at log_turns
  do_log_thread queue ts = do
    queue' ← log_at info logger (codes "Starting logging thread") queue
    log_turns
        (record { flags = fresh_flags; queue = queue'; is_waiting = false; is_closed = false }) ts
