-- ===== src/Logging.antt =====
-- src/logging.rs: the logger, its bounded channel, and the logging thread. What the thread gives to the log
-- crate, its own lines among it, is a list of messages.
pub mod Drain
pub mod Channel
pub mod Levels
pub mod Tasks
use havok_rust.Base.{
  ℕ, ◌+◌, Bytes, codes, Bool, true, false, not, ◌&&◌, ◌||◌, List, [], ◌∷◌, ◌++◌, Option, none, some,
  Outcome, ok, panic, out_of_fuel, if◌then◌else◌, leb, length, ◌>>=◌,
}
use havok_rust.Settings.{ControlSignal, reconfigure, shutdown}
use havok_rust.Connection.Session.{Status, waiting, finished, panicked, stuck}

-- `log::Level` by its name; the order is that of the severities.
pub data Level : Type 0 where
  error warn info debug trace : Level

abbrev pub rank : Level → ℕ
rank error = 1
rank warn = 2
rank info = 3
rank debug = 4
rank trace = 5

-- `struct LogMessage`.
pub record LogMessage : Type 0 where
  pub message : Bytes
  pub level : Level

unfoldable pub create_log_message : Level → Bytes → LogMessage
create_log_message log_level msg = record { message = msg; level = log_level }

-- `struct Logging`.
pub record Logging : Type 0 where
  pub initialized : Bool
  pub logtx : Option ℕ
  pub level : Level
  pub logfile : Option Bytes

-- The initial value of the static `LOGGER`.
abbrev pub logger_static : Logging
logger_static = record { initialized = false; logtx = none; level = info; logfile = none }

unfoldable pub set_logqueue : ℕ → Logging → Logging
set_logqueue logtx logger = record logger { logtx = some logtx }

unfoldable pub set_debug : Bool → Logging → Logging
set_debug debug_on logger =
    if debug_on then record logger { level = debug } else record logger { level = info }

-- `initialize` with the file opened (`open` says whether that works) and the loggers installed. The level is
-- set back before the test.
unfoldable pub initialize : (Bytes → Bool) → Logging → Outcome Logging
initialize open_file logger =
    let fresh = record logger { level = info } in
    if fresh.initialized then ok fresh else elim fresh.logfile [
      | none ↦ panic
      | some path ↦ if open_file path then ok (record fresh { initialized = true }) else panic
    ]

unfoldable pub set_logfile : (Bytes → Bool) → Bytes → Logging → Outcome Logging
unfolding initialize
set_logfile open_file logfile logger =
    initialize open_file (record logger { logfile = some logfile })

-- The capacity of the channel that `main` makes.
abbrev pub capacity : ℕ
capacity = 256

-- `try_send(...).unwrap()` on the channel with these messages in it.
unfoldable pub try_send : LogMessage → List LogMessage → Outcome (List LogMessage)
try_send message queue =
    if leb (length queue + 1) capacity then ok (queue ++ (message ∷ [])) else panic

-- `log_trace`, `log_debug`, `log_info`, `log_warn` and `log_error`, by their level.
unfoldable pub log_at : Level → Logging → Bytes → List LogMessage → Outcome (List LogMessage)
unfolding try_send create_log_message
log_at level logger message queue = elim logger.logtx [
  | none ↦ ok queue
  | some _ ↦ try_send (create_log_message level message) queue
]

-- What a task leaves in the channel; if it panics, nobody looks at it.
abbrev or_lost : List LogMessage → Outcome (List LogMessage) → List LogMessage
or_lost queue (ok queue') = queue'
or_lost queue _ = queue

-- A task that one of the functions outside of `Logging` spawns, which calls the method of the same name.
unfoldable pub run_log_task : Logging → List LogMessage → Level × Bytes → List LogMessage
unfolding log_at
run_log_task logger queue (level, message) = or_lost queue (log_at level logger message queue)

-- Such tasks, in the order in which they run.
unfoldable pub run_log_tasks : Logging → List LogMessage → List (Level × Bytes) → List LogMessage
unfolding run_log_task
run_log_tasks logger queue [] = queue
run_log_tasks logger queue (call ∷ calls) =
    run_log_tasks logger (run_log_task logger queue call) calls

-- A branch of the `select!` in `log_thread`: a message, `none` from a closed and empty channel; a control
-- signal, `none` if the channel fails.
pub data LogEvent : Type 0 where
  logged : Option LogMessage → LogEvent
  control : Option ControlSignal → LogEvent

-- The flags of `log_thread`.
pub record Flags : Type 0 where
  pub is_shutdown : Bool
  pub draining : Bool
  pub drained : Bool

abbrev pub goes_on : Flags → Bool
goes_on f = (not f.is_shutdown || f.draining) && not f.drained

abbrev pub log_first : List LogMessage → List LogMessage × Status → List LogMessage × Status
log_first now (later, status) = (now ++ later, status)

-- `log_enabled!` of the log crate is the parameter `enabled`.
module _ (enabled : Level → Bool) (level : Level) where
  -- A message is logged if its level is enabled and not beyond the logger's.
  unfoldable pub output : LogMessage → List LogMessage
  output message =
      if enabled message.level && leb (rank message.level) (rank level) then message ∷ [] else []

  -- `info!`, which does not look at the level of the logger.
  unfoldable pub say : Bytes → List LogMessage
  unfolding create_log_message
  say text = if enabled info then create_log_message info text ∷ [] else []

  -- What a round makes of its event. Every branch of the `select!` ends the inner loop.
  unfoldable pub on_event : Flags → LogEvent → Outcome (Flags × List LogMessage)
  unfolding output say
  on_event f (logged none) =
      ok (record f { draining = false; drained = true }, say (codes "Logs drained."))
  on_event f (logged (some message)) = ok (f, output message)
  on_event f (control none) = panic
  on_event f (control (some shutdown)) =
      ok (
        record { is_shutdown = true; draining = true; drained = false },
        say (codes "Draining logs"),
      )
  on_event f (control (some (reconfigure conf))) = ok (f, [])

  abbrev pub proceed :
      Outcome (Flags × List LogMessage)
      → (Flags → List LogMessage × Status)
      → List LogMessage × Status
  proceed (ok (f, now)) next = log_first now (next f)
  proceed panic next = ([], panicked)
  proceed out_of_fuel next = ([], stuck)

  -- Behind the loop.
  abbrev pub log_ending : List LogMessage × Status
  log_ending = (say (codes "Shutting down Logging thread"), finished)

  -- `while (!shutdown || draining) && !drained`.
  unfoldable pub log_thread : Flags → List LogEvent → List LogMessage × Status
  unfolding on_event
  log_thread f [] = if goes_on f then ([], waiting) else log_ending
  log_thread f (event ∷ events) =
      let rest = proceed (on_event f event) (λ f'. log_thread f' events) in
      if goes_on f then rest else log_ending

abbrev pub fresh_flags : Flags
fresh_flags = record { is_shutdown = false; draining = false; drained = false }
