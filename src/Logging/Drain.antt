-- ===== src/Logging/Drain.antt =====
-- The logging thread logs all that was sent before its channel was closed.
use havok_rust.Base.{
  ◌≡◌, refl, sym, ap, ◌∙◌, append_assoc, codes, Bool, true, false, List, [], ◌∷◌, ◌++◌, none, some,
  ok, All, arith,
}
use havok_rust.Settings.{reconfigure, shutdown}
use havok_rust.Connection.Session.{finished}
use havok_rust.Logging.{
  Level, LogMessage, LogEvent, logged, control, Flags, goes_on, log_first, output, say, log_ending,
  on_event, log_thread, fresh_flags,
}

-- An event other than the closed channel or a failed control channel.
abbrev pub IsLive : LogEvent → Type 0
IsLive (logged none) = ⊥
IsLive (logged (some message)) = Unit
IsLive (control none) = ⊥
IsLive (control (some signal)) = Unit

module _ (enabled : Level → Bool) (level : Level) where
  abbrev pub output_of : LogEvent → List LogMessage
  output_of (logged (some message)) = output enabled level message
  output_of (control (some shutdown)) = say enabled level (codes "Draining logs")
  output_of _ = []

  abbrev pub outputs : List LogEvent → List LogMessage
  outputs [] = []
  outputs (event ∷ events) = output_of event ++ outputs events

  -- The last lines of the thread.
  abbrev pub farewell : List LogMessage
  farewell =
      say enabled level (codes "Logs drained.")
      ++ say enabled level (codes "Shutting down Logging thread")

  -- Not drained, and draining once it is shut down.
  pub record Open (f : Flags) : Type 0 where
    pub going : goes_on f ≡ true
    pub not_drained : f.drained ≡ false

  on_event_live :
      (f : Flags) (event : LogEvent)
      → Open f
      → IsLive event
      → (f' : Flags) × Open f' × (on_event enabled level f event ≡ ok (f', output_of event))
  unfolding on_event
  on_event_live f (logged none) o h = absurd h
  on_event_live f (logged (some message)) o h = (f, o, refl)
  on_event_live f (control none) o h = absurd h
  on_event_live f (control (some shutdown)) o h =
      (_, record { going = refl; not_drained = refl }, refl)
  on_event_live f (control (some (reconfigure conf))) o h = (f, o, refl)

  pub goes_on_drained :
      (f : Flags) → goes_on (record f { draining = false; drained = true }) ≡ false
  goes_on_drained f = ground arith

  pub log_thread_over :
      (f : Flags) (events : List LogEvent)
      → goes_on f ≡ false
      → log_thread enabled level f events ≡ log_ending enabled level
  unfolding log_thread
  log_thread_over f [] e = rw e
  log_thread_over f (event ∷ events) e = rw e

  pub log_thread_round :
      (f f' : Flags) (event : LogEvent) (events : List LogEvent) (now : List LogMessage)
      → goes_on f ≡ true
      → on_event enabled level f event ≡ ok (f', now)
      → log_thread enabled level f (event ∷ events)
        ≡ log_first now (log_thread enabled level f' events)
  unfolding log_thread
  log_thread_round f f' event events now going e = rw (going, e)

  drains :
      (f : Flags) (before after : List LogEvent)
      → Open f
      → All IsLive before
      → log_thread enabled level f (before ++ (logged none ∷ after))
        ≡ (outputs before ++ farewell, finished)
  unfolding on_event
  drains f [] after o h =
      let f' : Flags = record f { draining = false; drained = true } in
      log_thread_round f f' (logged none) after (say enabled level (codes "Logs drained.")) o.going
        refl
      ∙ ap (log_first (say enabled level (codes "Logs drained.")))
          (log_thread_over f' after (goes_on_drained f))
  drains f (event ∷ before) after o h =
      let (f', o', e) = on_event_live f event o h.0 in
      log_thread_round f f' event (before ++ (logged none ∷ after)) (output_of event) o.going e
      ∙ ap (log_first (output_of event)) (drains f' before after o' h.1)
      ∙ ap (λ (lines : List LogMessage). (lines, finished))
          (sym (append_assoc (output_of event) (outputs before) farewell))

  -- Let the control channel not fail. Then the thread logs, in order, every message that it receives before
  -- its channel is closed and empty, those behind a shutdown signal too, as far as their levels allow it, and
  -- at each shutdown signal, as far as the level of infos does, that it drains; there it ends, with its own
  -- last lines, and looks at nothing that comes later.
  pub log_thread-drains :
      (before after : List LogEvent)
      → All IsLive before
      → log_thread enabled level fresh_flags (before ++ (logged none ∷ after))
        ≡ (outputs before ++ farewell, finished)
  log_thread-drains before after h =
      drains fresh_flags before after (record { going = refl; not_drained = refl }) h
