-- ===== src/Tests/Draining.antt =====
-- src/logging.rs: the logging thread at its channel, from a few calls to its end.
use havok_rust.Base.{◌≡◌, refl, false, codes, List, [], ◌∷◌, ◌++◌, ok, arith}
use havok_rust.Settings.{shutdown}
use havok_rust.Logging.{
  info, debug, LogMessage, LogEvent, fresh_flags, create_log_message, log_thread,
}
use havok_rust.Logging.Channel.{
  Channel, LogTurn, task, take_message, hear_signal, barrier_opens, do_log_thread,
}
use havok_rust.Logging.Channel.Admitted.{admitted, passed}
use havok_rust.Logging.Channel.Passes.{status_of}
use havok_rust.Logging.Channel.Passed.{do_log_thread_passes}
use havok_rust.Tests.Others.{ready, detail, always}

-- The second task logs while the thread waits at the barrier, the third when the channel is closed.
abbrev closing : List LogTurn
closing =
    task (info, codes "hello")
    ∷ take_message
    ∷ hear_signal shutdown
    ∷ take_message
    ∷ task (info, codes "a dying gasp")
    ∷ barrier_opens
    ∷ task (info, codes "too late")
    ∷ take_message
    ∷ take_message
    ∷ take_message
    ∷ take_message
    ∷ []

do_log_thread_passes_example :
    (last : Channel) × (lines : List LogMessage) × (events : List LogEvent) × (do_log_thread always
        ready
        (detail ∷ [])
        closing
      ≡ ok (last, lines))
    × (log_thread always debug fresh_flags events ≡ (lines, status_of last.flags))
    × (passed events ++ last.queue
        ≡ (detail ∷ [])
          ++ (create_log_message info (codes "Starting logging thread")
              ∷ admitted false false 2 closing))
do_log_thread_passes_example =
    do_log_thread_passes always ready (detail ∷ []) closing 3 refl (omega arith) tt

closing_is_in :
    admitted false false 2 closing
    ≡ record { message = codes "hello"; level = info }
      ∷ record { message = codes "a dying gasp"; level = info }
      ∷ []
unfolding admitted create_log_message
closing_is_in = refl
