-- ===== src/Program/Prepare.antt =====
-- src/main.rs, what `main` does before it starts the first task.
use havok_rust.Base.{
  ◌≡◌, refl, ◌∙◌, Bytes, codes, Bool, true, [], ◌∷◌, ◌++◌, some, Outcome, ok, ◌>>=◌, if◌then◌else◌,
  equal, nat_eq, list_eq, ℕ, ap, sym, bind-eq-ok,
}
use havok_rust.Base.HashMap.{HashMap, get, insert, get-insert}
use havok_rust.Ansi.Code.{unwrap, unwrap_or}
use havok_rust.Settings.{Settings, Global}
use havok_rust.Settings.Load.{Outside, Documented, dir_or, calls, new, new_runs, build-global}
use havok_rust.Logging.{Logging, debug, info, logger_static, set_logqueue, set_logfile, set_debug}
use havok_rust.Logging.Levels.{set_up-level}

abbrev pub appname : Bytes
appname = codes "HavokMudRust"

abbrev pub profile_key : Bytes
profile_key = codes "AWS_PROFILE"

-- `if profile.len() != 0 { env::set_var(key, profile); }`
unfoldable pub set_profile : Bytes → HashMap Bytes Bytes → HashMap Bytes Bytes
unfolding insert
set_profile [] env = env
set_profile (b ∷ profile) env = insert profile_key (b ∷ profile) env

-- The logger, the file system, the environment and the settings.
pub record Prepared (o : Outside) : Type 0 where
  pub logger : Logging
  pub fs : o.Fs
  pub env : HashMap Bytes Bytes
  pub settings : Settings

module _ (o : Outside) (open_file : Bytes → Bool) where
  unfoldable pub prepare : ℕ → HashMap Bytes Bytes → o.Fs → Outcome (Prepared o)
  unfolding set_logqueue new get set_logfile set_debug set_profile
  prepare logtx env fs = do
    let logger = set_logqueue logtx logger_static
    (fs', result) ← new o appname (get (codes "HAVOK_RUN_MODE") env) fs
    conf ← unwrap result
    logger' ← set_logfile open_file conf.global.log_file logger
    ok (record {
      logger = set_debug conf.debug logger';
      fs = fs';
      env = set_profile conf.mud.aws_profile env;
      settings = conf;
    })

-- Every other variable of the environment stays.
set_profile_lem :
    (profile key : Bytes) (env : HashMap Bytes Bytes)
    → get key (set_profile profile env) ≡ (
        if equal profile []
        then get key env
        else if equal profile_key key
        then some profile
        else get key env)
unfolding set_profile
set_profile_lem [] key env = refl
set_profile_lem (b ∷ profile) key env = get-insert profile_key key (b ∷ profile) env

module _ (o : Outside) (d : Documented o) (open_file : Bytes → Bool) where
  prepare_built :
      (logtx : ℕ) (env : HashMap Bytes Bytes) (fs fs' : o.Fs) (conf : Settings)
      → new o appname (get (codes "HAVOK_RUN_MODE") env) fs ≡ ok (fs', some conf)
      → open_file conf.global.log_file ≡ true
      → (p : Prepared o) × (prepare o open_file logtx env fs ≡ ok p)
        × (p.fs ≡ fs')
        × (p.settings ≡ conf)
        × (p.logger.level ≡ (if conf.debug then debug else info))
        × (p.logger.logtx ≡ some logtx)
        × (p.logger.logfile ≡ some conf.global.log_file)
        × (p.env ≡ set_profile conf.mud.aws_profile env)
  unfolding prepare
  prepare_built logtx env fs fs' conf made opens =
      let (l, up, level, tx, file) =
        set_up-level open_file logtx conf.global.log_file conf.debug logger_static opens in
      let (l', opened, same) =
        bind-eq-ok (set_logfile open_file conf.global.log_file (set_logqueue logtx logger_static)) _
          up in
      let logger : set_debug conf.debug l' ≡ l = cc in
      (
        record {
          logger = l;
          fs = fs';
          env = set_profile conf.mud.aws_profile env;
          settings = conf;
        },
        rw (made, opened, logger) refl,
        refl,
        refl,
        level,
        tx,
        file,
        refl,
      )

  -- Let overrides win and let directories be made, as documented; let the paths of the project and its log
  -- file be text, let the log file open, and let settings be built. Then `main` comes without a panic to its
  -- first task: the two directories are there; the global section of its settings is the one computed from
  -- the paths and the run mode; the logger writes to their log file, at debug exactly if the settings ask for
  -- it, and else at info; and in the environment only `AWS_PROFILE` may be new: the profile of the settings,
  -- unless that is empty.
  pub prepare_lem :
      (logtx : ℕ) (env : HashMap Bytes Bytes) (fs : o.Fs) (conf_dir dat_dir log : Bytes)
      → dir_or (o.config_dir appname) (codes "config") ≡ ok conf_dir
      → dir_or (o.data_dir appname) (codes "data") ≡ ok dat_dir
      → o.join dat_dir (appname ++ codes ".log") ≡ some log
      → ((dir : Bytes) (fs' : o.Fs) → (fs'' : o.Fs) × (o.create_dir_all dir fs' ≡ some fs''))
      → ((fs' : o.Fs)
          → (conf : Settings) × (o.build fs' (
                calls conf_dir dat_dir log
                  (unwrap_or (get (codes "HAVOK_RUN_MODE") env) (codes "development")))
              ≡ some conf))
      → open_file log ≡ true
      → (p : Prepared o) × (prepare o open_file logtx env fs ≡ ok p)
        × (o.is_dir conf_dir p.fs ≡ true)
        × (o.is_dir dat_dir p.fs ≡ true)
        × (p.settings.global ≡ record {
          config_dir = conf_dir;
          data_dir = dat_dir;
          log_file = log;
          run_mode = unwrap_or (get (codes "HAVOK_RUN_MODE") env) (codes "development");
        })
        × (p.logger.level ≡ (if p.settings.debug then debug else info))
        × (p.logger.logtx ≡ some logtx)
        × (p.logger.logfile ≡ some log)
        × ((key : Bytes)
            → get key p.env ≡ (
                if equal p.settings.mud.aws_profile []
                then get key env
                else if equal profile_key key
                then some p.settings.mud.aws_profile
                else get key env))
  prepare_lem logtx env fs conf_dir dat_dir log c t j makes builds opens =
      let mode = get (codes "HAVOK_RUN_MODE") env in
      let (fs', made, there, there') =
        new_runs o d appname mode fs conf_dir dat_dir log c t j makes in
      let (conf, built) = builds fs' in
      let global =
        build-global o d fs' conf_dir dat_dir log (unwrap_or mode (codes "development")) conf
          built in
      let at_log : conf.global.log_file ≡ log = ap (λ (g : Global). g.log_file) global in
      let (p, run, at, same, level, tx, file, env_is) =
        prepare_built logtx env fs fs' conf (rw built at made) (rw (sym at_log) at opens) in
      (
        p,
        run,
        rw at there,
        rw at there',
        rw same global,
        rw same level,
        tx,
        file ∙ ap some at_log,
        λ key. rw (env_is, same) (set_profile_lem conf.mud.aws_profile key env),
      )
