-- ===== src/Tests/Programs.antt =====
-- The tasks of src/main.rs from the start to a shutdown, and the settings of src/settings.rs.
use havok_rust.Base.{
  ℕ, ◌≡◌, ◌≢◌, ◌≤◌, refl, ap, sym, ◌∙◌, Bytes, codes, Bool, true, false, List, [], ◌∷◌, ◌++◌,
  Option, none, some, ok, leb, ◌==◌, equal, equal_iff, nat_eq, list_eq, ◌||◌, arith, ==_iff,
}
use havok_rust.Settings.{Settings, Global}
use havok_rust.Settings.Load.{
  Call, Outside, Documented, Key, last_override, path_of, value_of, dir_or, new, new_lem,
}
use havok_rust.Program.State.{
  Tokio, MainPc, Pc, Choice, main_goes, log_goes, sighup_goes, server_goes, dns_goes, interrupt,
  hang_up, start_opens, shutdown_opens, start, ctrl_c_task, sighup_task, server_task, dns_task,
}
use havok_rust.Program.{schedule, shutdown_count}
use havok_rust.Program.Shutdown.{NobodyEnds, schedule_never_finishes}
use havok_rust.Program.Reload.{schedule_never_reloads}
use havok_rust.Program.Startup.{schedule_serves}
use havok_rust.Program.Inboxes.{is_served}
use havok_rust.Program.Prepare.{Prepared, prepare, profile_key, prepare_lem}
use havok_rust.Base.{if◌then◌else◌}
use havok_rust.Base.HashMap.{HashMap, get}
use havok_rust.Logging.{debug, info}
use havok_rust.Tests.Running.{conf, moved}

full : (size waiting : ℕ) → leb size waiting ≡ true → size ≤ waiting
full size waiting h = ground arith

alone : (readers : ℕ) → (readers == 0) ≡ true → readers ≡ 0
alone readers h = (==_iff readers 0).0 h

abbrev tokio : Tokio
tokio = record {
  barrier_opens = leb;
  barrier_opens_full = full;
  lock_writes = λ readers. readers == 0;
  lock_writes_alone = alone;
}

-- All tasks come to the start barrier, and it opens.
abbrev starting : List Choice
starting =
    main_goes ∷ main_goes ∷ main_goes ∷ main_goes ∷ main_goes ∷ log_goes ∷ log_goes ∷ sighup_goes
    ∷ server_goes ∷ dns_goes ∷ start_opens ∷ main_goes ∷ []

-- A reload that does not come to its end, and Ctrl-C.
abbrev reloading : List Choice
reloading =
    starting
    ++ (server_goes ∷ hang_up (some moved) ∷ sighup_goes ∷ interrupt ∷ main_goes ∷ main_goes ∷ [])

-- Ctrl-C, and every task goes on as far as it can.
abbrev ending : List Choice
ending =
    starting
    ++ (server_goes ∷ interrupt ∷ server_goes ∷ log_goes ∷ log_goes ∷ sighup_goes ∷ sighup_goes
        ∷ dns_goes ∷ dns_goes ∷ main_goes ∷ main_goes ∷ main_goes ∷ shutdown_opens ∷ main_goes ∷ [])

starting_runs :
    ((schedule tokio conf start starting).main ≡ MainPc.running)
    × ((schedule tokio conf start starting).server ≡ Pc.settling false)
unfolding schedule
starting_runs = (refl, refl)

ending_runs :
    ((schedule tokio conf start ending).main
      ≡ MainPc.filling (ctrl_c_task ∷ sighup_task ∷ server_task ∷ dns_task ∷ []))
    × (shutdown_count (schedule tokio conf start ending) ≡ 5)
unfolding schedule
ending_runs = (refl, refl)

reloading_runs : (schedule tokio conf start reloading).sighup ≡ Pc.reloading
unfolding schedule
reloading_runs = refl

schedule_never_finishes_example :
    ((schedule tokio conf start ending).main ≢ MainPc.finished)
    × NobodyEnds (schedule tokio conf start ending)
schedule_never_finishes_example = schedule_never_finishes tokio conf ending

schedule_never_reloads_example : (schedule tokio conf start reloading).reloads ≡ 0
unfolding schedule
schedule_never_reloads_example = schedule_never_reloads tokio conf reloading refl

schedule_serves_example : is_served (schedule tokio conf start starting).server_inbox ≡ true
unfolding schedule
schedule_serves_example = schedule_serves tokio conf starting refl refl

-- Settings that hold the overrides, and a file system that is a list of directories.
abbrev or_empty : Option Bytes → Bytes
or_empty none = []
or_empty (some v) = v

abbrev global_from : List Call → Global
global_from cs = record {
  config_dir = or_empty (last_override (path_of Key.config_dir) cs);
  data_dir = or_empty (last_override (path_of Key.data_dir) cs);
  log_file = or_empty (last_override (path_of Key.log_file) cs);
  run_mode = or_empty (last_override (path_of Key.run_mode) cs);
}

abbrev holds : Bytes → List Bytes → Bool
holds dir [] = false
holds dir (d ∷ ds) = equal d dir || holds dir ds

abbrev profiled : Settings
profiled = record conf { mud = record conf.mud { aws_profile = codes "game" } }

abbrev outside : Outside
outside = record {
  Fs = List Bytes;
  config_dir = λ app. some (some (codes "/etc/havok"));
  data_dir = λ app. none;
  join = λ dir file. some (dir ++ (codes "/" ++ file));
  is_dir = holds;
  create_dir_all = λ dir fs. some (dir ∷ fs);
  build = λ fs cs. some (record profiled { global = global_from cs });
}

given :
    (cs : List Call) (k : Key) (v : Bytes)
    → last_override (path_of k) cs ≡ some v
    → value_of k (global_from cs) ≡ v
given cs Key.config_dir v found = ap or_empty found
given cs Key.data_dir v found = ap or_empty found
given cs Key.log_file v found = ap or_empty found
given cs Key.run_mode v found = ap or_empty found

built :
    (cs : List Call) (c : Settings) (k : Key)
    → outside.build [] cs ≡ some c
    → value_of k c.global ≡ value_of k (global_from cs)
built cs c k e =
    let same : record profiled { global = global_from cs } ≡ c = cc in
    ap (λ (s : Settings). value_of k s.global) (sym same)

made_there : (dir : Bytes) (fs fs' : List Bytes) → some (dir ∷ fs) ≡ some fs' → holds dir fs' ≡ true
made_there dir fs fs' e =
    let same : dir ∷ fs ≡ fs' = cc in rw (← same) (rw ((equal_iff dir dir).1 refl) refl)

or_true : (b : Bool) → (b || true) ≡ true
or_true b = ground arith

others_there :
    (dir other : Bytes) (fs fs' : List Bytes)
    → some (dir ∷ fs) ≡ some fs'
    → holds other fs ≡ true
    → holds other fs' ≡ true
others_there dir other fs fs' e h =
    let same : dir ∷ fs ≡ fs' = cc in rw (← same, h) (or_true (equal dir other))

outside-Documented : Documented outside
outside-Documented = record {
  overrides = λ fs cs c k v e found. built cs c k e ∙ given cs k v found;
  created = made_there;
  others = others_there;
}

abbrev made : Global
made = record {
  config_dir = codes "/etc/havok";
  data_dir = codes "data";
  log_file = codes "data/mud.log";
  run_mode = codes "development";
}

new_makes_dirs :
    (fs' : List Bytes) × (result : Option Settings) × (new outside (codes "mud") none []
      ≡ ok (fs', result))
    × (holds (codes "/etc/havok") fs' ≡ true)
    × (holds (codes "data") fs' ≡ true)
    × ((c : Settings) → result ≡ some c → c.global ≡ made)
unfolding new
new_makes_dirs =
    new_lem outside outside-Documented (codes "mud") none [] (codes "/etc/havok") (codes "data")
      (codes "data/mud.log") refl refl refl (λ dir fs. (dir ∷ fs, refl))

abbrev variables : HashMap Bytes Bytes
variables = (codes "HAVOK_RUN_MODE", codes "test") ∷ []

abbrev tested : Global
tested = record {
  config_dir = codes "/etc/havok";
  data_dir = codes "data";
  log_file = codes "data/HavokMudRust.log";
  run_mode = codes "test";
}

prepare_lem_example :
    (p : Prepared outside) × (prepare outside (λ file. true) 3 variables [] ≡ ok p)
    × (holds (codes "/etc/havok") p.fs ≡ true)
    × (holds (codes "data") p.fs ≡ true)
    × (p.settings.global ≡ tested)
    × (p.logger.level ≡ (if p.settings.debug then debug else info))
    × (p.logger.logtx ≡ some 3)
    × (p.logger.logfile ≡ some (codes "data/HavokMudRust.log"))
    × ((key : Bytes)
        → get key p.env ≡ (
            if equal p.settings.mud.aws_profile []
            then get key variables
            else if equal profile_key key
            then some p.settings.mud.aws_profile
            else get key variables))
unfolding get dir_or
prepare_lem_example =
    prepare_lem outside outside-Documented (λ file. true) 3 variables [] (codes "/etc/havok")
      (codes "data") (codes "data/HavokMudRust.log") refl refl refl (λ dir fs. (dir ∷ fs, refl))
      (λ fs. (_, refl)) refl
