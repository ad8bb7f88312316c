-- ===== src/Logging/Channel/Admitted.antt =====
-- What goes into the channel of the logging thread, and what comes out of it.
use havok_rust.Base.{
  ℕ, suc, ◌-◌, ◌≡◌, refl, ap, Bool, true, false, List, [], ◌∷◌, ◌++◌, none, some, if◌then◌else◌,
  leb, length, length-append, arith,
}
use havok_rust.Settings.{Settings, ControlSignal, shutdown, reconfigure}
use havok_rust.Logging.{LogMessage, LogEvent, logged, control, create_log_message, capacity}
use havok_rust.Logging.Channel.{LogTurn, task, take_message, hear_signal, barrier_opens}

-- The messages that go into the channel while the turns go on: of the tasks before the shutdown barrier opens
-- for the thread, those that find room in it. The thread takes nothing while it waits at the barrier.
unfoldable pub admitted : Bool → Bool → ℕ → List LogTurn → List LogMessage
admitted true is_waiting n ts = []
admitted false is_waiting n [] = []
admitted false is_waiting n (task (level, text) ∷ ts) =
    if leb capacity n
    then admitted false is_waiting n ts
    else create_log_message level text ∷ admitted false is_waiting (suc n) ts
admitted false false n (take_message ∷ ts) = admitted false false (n - 1) ts
admitted false false n (hear_signal shutdown ∷ ts) = admitted false true n ts
admitted false true n (barrier_opens ∷ ts) = []
admitted false is_waiting n (t ∷ ts) = admitted false is_waiting n ts

pub admitted_nil : (is_closed is_waiting : Bool) (n : ℕ) → admitted is_closed is_waiting n [] ≡ []
unfolding admitted
admitted_nil true is_waiting n = refl
admitted_nil false is_waiting n = refl

pub admitted_take :
    (is_closed : Bool) (n : ℕ) (ts : List LogTurn)
    → admitted is_closed false n ts ≡ admitted is_closed false (suc n) (take_message ∷ ts)
unfolding admitted
admitted_take true n ts = refl
admitted_take false n ts =
    let one_less : n ≡ suc n - 1 = omega arith in ap (λ (k : ℕ). admitted false false k ts) one_less

pub admitted_reconfigure :
    (is_closed : Bool) (n : ℕ) (conf : Settings) (ts : List LogTurn)
    → admitted is_closed false n ts
      ≡ admitted is_closed false n (hear_signal (reconfigure conf) ∷ ts)
unfolding admitted
admitted_reconfigure true n conf ts = refl
admitted_reconfigure false n conf ts = refl

pub admitted_shutdown :
    (is_closed : Bool) (n : ℕ) (ts : List LogTurn)
    → admitted is_closed true n ts ≡ admitted is_closed false n (hear_signal shutdown ∷ ts)
unfolding admitted
admitted_shutdown true n ts = refl
admitted_shutdown false n ts = refl

pub admitted_unopened :
    (is_closed : Bool) (n : ℕ) (ts : List LogTurn)
    → admitted is_closed false n ts ≡ admitted is_closed false n (barrier_opens ∷ ts)
unfolding admitted
admitted_unopened true n ts = refl
admitted_unopened false n ts = refl

pub admitted_opened :
    (is_closed : Bool) (n : ℕ) (ts : List LogTurn)
    → admitted true false n ts ≡ admitted is_closed true n (barrier_opens ∷ ts)
unfolding admitted
admitted_opened true n ts = refl
admitted_opened false n ts = refl

-- Turns that a waiting thread does not take.
pub admitted_waits_take :
    (is_closed : Bool) (n : ℕ) (ts : List LogTurn)
    → admitted is_closed true n ts ≡ admitted is_closed true n (take_message ∷ ts)
unfolding admitted
admitted_waits_take true n ts = refl
admitted_waits_take false n ts = refl

pub admitted_waits_signal :
    (is_closed : Bool) (n : ℕ) (signal : ControlSignal) (ts : List LogTurn)
    → admitted is_closed true n ts ≡ admitted is_closed true n (hear_signal signal ∷ ts)
unfolding admitted
admitted_waits_signal true n signal ts = refl
admitted_waits_signal false n signal ts = refl

pub length_snoc :
    (m : LogMessage) (queue : List LogMessage) → length (queue ++ (m ∷ [])) ≡ suc (length queue)
length_snoc m queue = omega (arith, length-append queue (m ∷ []))

-- The messages among the events of the thread.
abbrev pub passed : List LogEvent → List LogMessage
passed [] = []
passed (logged (some message) ∷ events) = message ∷ passed events
passed (_ ∷ events) = passed events

pub passed-cons :
    (event : LogEvent) (events : List LogEvent)
    → passed (event ∷ events) ≡ passed (event ∷ []) ++ passed events
passed-cons (logged (some message)) events = refl
passed-cons (logged none) events = refl
passed-cons (control signal) events = refl
