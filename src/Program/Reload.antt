-- ===== src/Program/Reload.antt =====
-- SIGHUP in src/main.rs: `set_debug` needs the lock that the logging task holds.
use havok_rust.Base.{◌≡◌, refl, Bool, true, false, List, Option, Bool-cases, inl, inr, arith}
use havok_rust.Settings.{Settings}
use havok_rust.Program.State.{
  Tokio, Pc, unborn, settling, at_start, running, reloading, at_shutdown, panicked, MainPc, Inbox,
  World, Choice, start, hear, log_step, sighup_step, post_all, start_size,
}
use havok_rust.Program.{
  main_hears, log_readers, waits_start, start_count, main_step, on_interrupt, on_hang_up, reload,
  sighup_goes_on, open_start, open_shutdown, choose, schedule,
}
use havok_rust.Program.Barriers.{start-AllWait}
use havok_rust.Program.Shutdown.{NobodyEnds, choose-NobodyEnds, start-NobodyEnds, never_opens}
use havok_rust.Program.Runs.{schedule_keeps}

-- Whether the SIGHUP handler is behind the start barrier.
abbrev is_started : Pc → Bool
is_started running = true
is_started reloading = true
is_started at_shutdown = true
is_started (settling b) = true
is_started _ = false

-- Whether the logging task has the lock, or is dead.
abbrev is_locked : Pc → Bool
is_locked at_start = true
is_locked running = true
is_locked at_shutdown = true
is_locked panicked = true
is_locked _ = false

abbrev pub is_panicked : Pc → Bool
is_panicked panicked = true
is_panicked _ = false

record Locks (w : World) : Type 0 where
  fresh : w.main ≡ MainPc.spawn_log → (w.log ≡ unborn) × (w.sighup ≡ unborn)
  idle : waits_start w.ctrl_c ≡ 0
  locked : is_started w.sighup ≡ true → is_locked w.log ≡ true
  none_yet : is_panicked w.log ≡ false → w.reloads ≡ 0

start-Locks : Locks start
start-Locks = record {
  fresh = λ _. (refl, refl);
  idle = refl;
  locked = λ e. cc;
  none_yet = λ _. refl;
}

log_step_locked :
    (pc : Pc) (inbox : Inbox) → is_locked pc ≡ true → is_locked (log_step pc inbox).0 ≡ true
unfolding log_step hear
log_step_locked pc inbox h = ground arith

log_step_unborn : (inbox : Inbox) → (log_step unborn inbox).0 ≡ unborn
unfolding log_step hear
log_step_unborn inbox = refl

sighup_step_unborn : (inbox : Inbox) → (sighup_step unborn inbox).0 ≡ unborn
unfolding sighup_step hear
sighup_step_unborn inbox = refl

log_step_panicked :
    (pc : Pc) (inbox : Inbox) → is_panicked (log_step pc inbox).0 ≡ false → is_panicked pc ≡ false
unfolding log_step hear
log_step_panicked pc inbox h = ground arith

sighup_step_started :
    (pc : Pc) (inbox : Inbox) → is_started (sighup_step pc inbox).0 ≡ true → is_started pc ≡ true
unfolding sighup_step hear
sighup_step_started pc inbox h = ground arith

module _ (tokio : Tokio) (settings : Settings) where
  main_step-Locks :
      (pc : MainPc) (w : World) → pc ≡ w.main → Locks w → Locks (main_step tokio settings pc w)
  unfolding main_step post_all main_hears
  main_step-Locks pc w e v = ground (arith, v.fresh)

  sighup_goes_on-Locks :
      (pc : Pc) (w : World) → pc ≡ w.sighup → Locks w → Locks (sighup_goes_on tokio settings pc w)
  unfolding sighup_goes_on reload
  sighup_goes_on-Locks pc w e v = ground (
    arith,
    sighup_step_started pc w.sighup_inbox,
    sighup_step_unborn w.sighup_inbox,
    tokio.lock_writes_alone (log_readers w.log),
  )

  on_interrupt-Locks : (pc : Pc) (w : World) → Locks w → Locks (on_interrupt tokio settings pc w)
  unfolding on_interrupt post_all
  on_interrupt-Locks pc w v = ground arith

  on_hang_up-Locks :
      (pc : Pc) (conf : Option Settings) (w : World)
      → pc ≡ w.sighup
      → Locks w
      → Locks (on_hang_up tokio settings pc conf w)
  unfolding on_hang_up post_all
  on_hang_up-Locks pc conf w e v = ground arith

  open_start-Locks : (w : World) → Locks w → Locks (open_start tokio settings w)
  unfolding open_start
  open_start-Locks w v = elim (Bool-cases (tokio.barrier_opens start_size (start_count w))) [
    | inl opens ↦
        let all =
          start-AllWait w v.idle (tokio.barrier_opens_full start_size (start_count w) opens) in
        rw opens (record {
          fresh = λ e. cc (rw all.main at e);
          idle = ground arith;
          locked = λ _. rw all.log refl;
          none_yet = λ h. v.none_yet (rw all.log refl);
        })
    | inr stays ↦ rw stays v
  ]

  choose-Locks :
      (w : World) (c : Choice) → NobodyEnds w → Locks w → Locks (choose tokio settings w c)
  unfolding choose
  choose-Locks w Choice.main_goes n v = main_step-Locks w.main w refl v
  choose-Locks w Choice.log_goes n v = ground (
    arith,
    log_step_locked w.log w.log_inbox,
    log_step_panicked w.log w.log_inbox,
    log_step_unborn w.log_inbox,
  )
  choose-Locks w Choice.sighup_goes n v = sighup_goes_on-Locks w.sighup w refl v
  choose-Locks w Choice.server_goes n v = ground arith
  choose-Locks w Choice.dns_goes n v = ground arith
  choose-Locks w Choice.interrupt n v = on_interrupt-Locks w.ctrl_c w v
  choose-Locks w (Choice.hang_up conf) n v = on_hang_up-Locks w.sighup conf w refl v
  choose-Locks w Choice.server_fails n v = ground arith
  choose-Locks w Choice.start_opens n v = open_start-Locks w v
  choose-Locks w Choice.shutdown_opens n v = rw (never_opens tokio settings w n, open_shutdown) v

  -- Whatever happens from the start on, in any order: while the logging task has not panicked, no reload that
  -- SIGHUP asked for has finished, since `set_debug` waits for the lock under which that task runs.
  pub schedule_never_reloads :
      (cs : List Choice)
      → is_panicked (schedule tokio settings start cs).log ≡ false
      → (schedule tokio settings start cs).reloads ≡ 0
  schedule_never_reloads cs =
      (schedule_keeps tokio settings (λ w. NobodyEnds w × Locks w)
        (λ w c v. (choose-NobodyEnds tokio settings w c v.0, choose-Locks w c v.0 v.1)) start cs
        (start-NobodyEnds, start-Locks)).1.none_yet
