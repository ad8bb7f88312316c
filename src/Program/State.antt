-- ===== src/Program/State.antt =====
-- src/main.rs: where its tasks stand, the control channel, and how the spawned tasks read it.
use havok_rust.Base.{
  ℕ, ◌≤◌, ◌≡◌, Bool, true, false, List, [], ◌∷◌, ◌++◌, Option, length, leb, if◌then◌else◌,
}
use havok_rust.Settings.{Settings, ControlSignal, reconfigure, shutdown}

-- What tokio documents of `Barrier` and `RwLock`: the tasks that wait at a barrier of this size go on only if
-- there are so many of them, and a lock is written only while nobody reads it.
pub record Tokio : Type 0 where
  pub barrier_opens : ℕ → ℕ → Bool
  pub barrier_opens_full : (size waiting : ℕ) → barrier_opens size waiting ≡ true → size ≤ waiting
  pub lock_writes : ℕ → Bool
  pub lock_writes_alone : (readers : ℕ) → lock_writes readers ≡ true → readers ≡ 0

-- Where a spawned task stands. `locking` is before `LOGGER.read()`, `settling` the wait for the first settings
-- with the flag `shutdown`, `reloading` before `LOGGER.write()`; `leaving` is behind the shutdown barrier.
pub data Pc : Type 0 where
  unborn born locking at_start : Pc
  settling : Bool → Pc
  running reloading at_shutdown leaving finished panicked : Pc

-- The handles of `task_handle_list`.
pub data Task : Type 0 where
  log_task ctrl_c_task sighup_task server_task dns_task : Task

-- Where the main task stands; `checking` has the handles that are still to be looked at, and `filling` waits
-- at the shutdown barrier for a task that has ended.
pub data MainPc : Type 0 where
  spawn_log spawn_ctrl_c spawn_sighup spawn_server spawn_dns : MainPc
  at_start sending running : MainPc
  checking filling : List Task → MainPc
  at_shutdown joining finished panicked exited : MainPc

-- What a receiver of the control channel has not read yet; `lagged` once a message was overwritten.
pub data Inbox : Type 0 where
  closed : Inbox
  queued : List ControlSignal → Inbox
  lagged : Inbox

-- `broadcast::channel::<ControlSignal>(4)`
abbrev pub control_capacity : ℕ
control_capacity = 4

pub record World : Type 0 where
  pub main : MainPc
  pub log : Pc
  pub ctrl_c : Pc
  pub sighup : Pc
  pub server : Pc
  pub dns : Pc
  pub main_inbox : Inbox
  pub log_inbox : Inbox
  pub sighup_inbox : Inbox
  pub server_inbox : Inbox
  pub dns_inbox : Inbox
  pub reloads : ℕ  -- calls of `set_debug` for SIGHUP that returned

-- What happens next: a task goes on, Ctrl-C or SIGHUP arrives (with what `Settings::new` gives), the server
-- panics, or a barrier opens.
pub data Choice : Type 0 where
  main_goes log_goes sighup_goes server_goes dns_goes : Choice
  interrupt : Choice
  hang_up : Option Settings → Choice
  server_fails : Choice
  start_opens shutdown_opens : Choice

-- Behind `thread_count = 6`: the size of the shutdown barrier, and of the other.
abbrev pub thread_count : ℕ
thread_count = 6

abbrev pub start_size : ℕ
start_size = 5

abbrev pub start : World
start = record {
  main = spawn_log;
  log = unborn;
  ctrl_c = unborn;
  sighup = unborn;
  server = unborn;
  dns = unborn;
  main_inbox = queued [];
  log_inbox = closed;
  sighup_inbox = closed;
  server_inbox = closed;
  dns_inbox = closed;
  reloads = 0;
}

unfoldable pub post : ControlSignal → Inbox → Inbox
post s closed = closed
post s (queued q) = if leb control_capacity (length q) then lagged else queued (q ++ (s ∷ []))
post s lagged = lagged

-- `ctltx.send`
unfoldable pub post_all : ControlSignal → World → World
unfolding post
post_all s w = record w {
  main_inbox = post s w.main_inbox;
  log_inbox = post s w.log_inbox;
  sighup_inbox = post s w.sighup_inbox;
  server_inbox = post s w.server_inbox;
  dns_inbox = post s w.dns_inbox;
}

-- `ctlqueue.recv()` in the loops of the spawned tasks: on `Shutdown` they go to the shutdown barrier, but the
-- server waits for its settings first. With nothing to read they stay; the `unwrap` of an error panics.
unfoldable pub hear : Pc → Inbox → Pc × Inbox
hear running (queued (shutdown ∷ q)) = (at_shutdown, queued q)
hear running (queued (reconfigure conf ∷ q)) = (running, queued q)
hear running lagged = (panicked, lagged)
hear (settling b) (queued (shutdown ∷ q)) = (settling true, queued q)
hear (settling false) (queued (reconfigure conf ∷ q)) = (running, queued q)
hear (settling true) (queued (reconfigure conf ∷ q)) = (at_shutdown, queued q)
hear (settling b) lagged = (panicked, lagged)
hear pc inbox = (pc, inbox)

-- `do_log_thread` spawns the task that reads `LOGGER` and runs `log_thread`.
unfoldable pub log_step : Pc → Inbox → Pc × Inbox
unfolding hear
log_step born inbox = (locking, inbox)
log_step locking inbox = (at_start, queued [])
log_step leaving inbox = (finished, inbox)
log_step pc inbox = hear pc inbox

-- `sighup_ctlrx` was subscribed by main; a reload goes on when the lock may be written.
unfoldable pub sighup_step : Pc → Inbox → Pc × Inbox
unfolding hear
sighup_step born inbox = (at_start, inbox)
sighup_step leaving inbox = (finished, inbox)
sighup_step pc inbox = hear pc inbox

-- `do_server_thread` and `do_dns_lookup_thread`.
unfoldable pub thread_step : Pc → Inbox → Pc × Inbox
unfolding hear
thread_step born inbox = (at_start, queued [])
thread_step leaving inbox = (finished, inbox)
thread_step pc inbox = hear pc inbox
