-- ===== src/Logging/Levels.antt =====
-- The level of the logger, and its channel when it is full.
use havok_rust.Base.{
  ℕ, ◌≡◌, refl, Bytes, Bool, true, List, [], ◌∷◌, ◌++◌, some, Outcome, ok, panic, ◌>>=◌,
  if◌then◌else◌, length, leb, arith, ◌≤◌, ◌+◌, suc, false, Bool-cases, inl, inr, ◌∙◌, append_assoc,
  append-nil, length-append,
}
use havok_rust.Logging.{
  Level, info, debug, LogMessage, Logging, set_debug, set_logfile, set_logqueue, initialize, log_at,
  try_send, create_log_message, capacity,
}

-- Opening the log file sets the level back to info, whatever was set before.
pub set_logfile-level :
    (open_file : Bytes → Bool) (path : Bytes) (logger : Logging) {l : Logging}
    → set_logfile open_file path logger ≡ ok l
    → (l.level ≡ info) × (l.logfile ≡ some path) × (l.initialized ≡ true) × (l.logtx ≡ logger.logtx)
unfolding set_logfile initialize
set_logfile-level open_file path logger {l} e = ground arith

-- As `main` sets the logger up: a queue, the log file, and then the debug flag.
abbrev pub set_up : (Bytes → Bool) → ℕ → Bytes → Bool → Logging → Outcome Logging
set_up open_file logtx path debug_on logger =
    set_logfile open_file path (set_logqueue logtx logger) >>= λ l. ok (set_debug debug_on l)

-- If the log file opens, the set-up of `main` does not panic, whatever the logger was before. Behind it the
-- level is debug exactly if the settings ask for it, and info otherwise; the channel and the file are those
-- of `main`.
pub set_up-level :
    (open_file : Bytes → Bool) (logtx : ℕ) (path : Bytes) (debug_on : Bool) (logger : Logging)
    → open_file path ≡ true
    → (l : Logging) × (set_up open_file logtx path debug_on logger ≡ ok l)
      × (l.level ≡ (if debug_on then debug else info))
      × (l.logtx ≡ some logtx)
      × (l.logfile ≡ some path)
unfolding set_debug set_logqueue set_logfile initialize
set_up-level open_file logtx path debug_on logger e = (
  record {
    initialized = true;
    logtx = some logtx;
    level = if debug_on then debug else info;
    logfile = some path;
  },
  ground arith,
  refl,
  refl,
  refl,
)

pub log_at_room :
    (level : Level) (logger : Logging) (msg : Bytes) (queue : List LogMessage) (tx : ℕ)
    → logger.logtx ≡ some tx
    → log_at level logger msg queue ≡ (
        if leb capacity (length queue)
        then panic
        else ok (queue ++ (create_log_message level msg ∷ [])))
unfolding log_at try_send
log_at_room level logger msg queue tx e = ground arith

-- Calls of the logging functions, one after the other.
abbrev pub log_all : Logging → List (Level × Bytes) → List LogMessage → Outcome (List LogMessage)
log_all logger [] queue = ok queue
log_all logger ((level, msg) ∷ calls) queue = log_at level logger msg queue >>= log_all logger calls

abbrev pub messages : List (Level × Bytes) → List LogMessage
messages [] = []
messages ((level, msg) ∷ calls) = create_log_message level msg ∷ messages calls

no_room : (q m : ℕ) → 256 ≤ q → leb (q + suc m) 256 ≡ false
no_room q m h = ground arith

pub one_more_fits :
    (m : LogMessage) (queue : List LogMessage)
    → leb capacity (length queue) ≡ false
    → length (queue ++ (m ∷ [])) ≤ capacity
one_more_fits m queue room = ground (arith, length-append queue (m ∷ []))

pub moved :
    (m : LogMessage) (queue : List LogMessage) (n : ℕ)
    → length (queue ++ (m ∷ [])) + n ≡ length queue + suc n
moved m queue n = omega (arith, length-append queue (m ∷ []))

-- While nothing is taken from the channel of the logger, calls of the logging functions put all their
-- messages at its end, in order, if with them there are no more than 256 in it; otherwise one of the calls
-- panics.
pub log_all_lem :
    (logger : Logging) (calls : List (Level × Bytes)) (queue : List LogMessage) (tx : ℕ)
    → logger.logtx ≡ some tx
    → length queue ≤ capacity
    → log_all logger calls queue
      ≡ (if leb (length queue + length calls) capacity then ok (queue ++ messages calls) else panic)
log_all_lem logger [] queue tx e h = rw (append-nil queue) (ground arith)
log_all_lem logger ((level, msg) ∷ calls) queue tx e h =
    elim (Bool-cases (leb capacity (length queue))) [
      | inl full ↦
          rw
            (
              log_at_room level logger msg queue tx e,
              full,
              no_room (length queue) (length calls) (ground arith),
            )
            refl
      | inr room ↦
          rw (log_at_room level logger msg queue tx e, room)
            (log_all_lem logger calls (queue ++ (create_log_message level msg ∷ [])) tx e
                (one_more_fits (create_log_message level msg) queue room)
              ∙ rw
                  (
                    moved (create_log_message level msg) queue (length calls),
                    append_assoc queue (create_log_message level msg ∷ []) (messages calls),
                  )
                  refl)
    ]
