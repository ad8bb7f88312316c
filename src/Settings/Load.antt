-- ===== src/Settings/Load.antt =====
-- src/settings.rs, `Settings::new`. The environment, the file system and the crates `directories` and `config`
-- are parameters.
use havok_rust.Base.{
  ◌≡◌, refl, Bytes, codes, Bool, true, false, List, [], ◌∷◌, ◌++◌, Option, none, some, Outcome, ok,
  ◌>>=◌, if◌then◌else◌, Bool-cases, inl, inr, equal, nat_eq, list_eq,
}
use havok_rust.Ansi.Code.{unwrap, unwrap_or}
use havok_rust.Settings.{Settings, Global}

-- The calls on `Config::builder()`, in their order; all files are optional.
pub data Call : Type 0 where
  set_default : Bytes → Bool → Call
  add_file : Bytes → Call
  add_environment : Bytes → Call
  set_override : Bytes → Bytes → Call

-- `config_dir` and `data_dir` have the two directories of `ProjectDirs::from("net", "Beirdo", …)`, `none` if it
-- finds no home, and `some none` for a path that is not text. `build` is `build` with `try_deserialize`, and
-- `none` is an error.
pub record Outside : Type 1 where
  pub Fs : Type 0
  pub config_dir : Bytes → Option (Option Bytes)
  pub data_dir : Bytes → Option (Option Bytes)
  pub join : Bytes → Bytes → Option Bytes
  pub is_dir : Bytes → Fs → Bool
  pub create_dir_all : Bytes → Fs → Option Fs
  pub build : Fs → List Call → Option Settings

-- The directory of the project, or the one beside the program.
unfoldable pub dir_or : Option (Option Bytes) → Bytes → Outcome Bytes
dir_or none other = ok other
dir_or (some dir) other = unwrap dir

-- The builder of `Settings::new`.
abbrev pub calls : Bytes → Bytes → Bytes → Bytes → List Call
calls config_dir data_dir log_file run_mode =
    set_default (codes "debug") false
    ∷ add_file (config_dir ++ codes "/default.toml")
    ∷ add_file (config_dir ++ (codes "/" ++ (run_mode ++ codes ".toml")))
    ∷ add_file (config_dir ++ codes "/local.toml")
    ∷ add_environment (codes "havok")
    ∷ set_override (codes "global.config_dir") config_dir
    ∷ set_override (codes "global.data_dir") data_dir
    ∷ set_override (codes "global.log_file") log_file
    ∷ set_override (codes "global.run_mode") run_mode
    ∷ []

module _ (o : Outside) where
  -- `if !Path::new(&dir).is_dir() { fs::create_dir_all(&dir) … }`
  unfoldable pub ensure_dir : Bytes → o.Fs → Outcome o.Fs
  ensure_dir dir fs = if o.is_dir dir fs then ok fs else unwrap (o.create_dir_all dir fs)

  -- `Settings::new`, with the value of `HAVOK_RUN_MODE`: the file system afterwards, and the settings.
  unfoldable pub new : Bytes → Option Bytes → o.Fs → Outcome (o.Fs × Option Settings)
  unfolding dir_or ensure_dir
  new appname mode fs = do
    config_dir ← dir_or (o.config_dir appname) (codes "config")
    data_dir ← dir_or (o.data_dir appname) (codes "data")
    log_file ← unwrap (o.join data_dir (appname ++ codes ".log"))
    fs' ← ensure_dir config_dir fs
    fs'' ← ensure_dir data_dir fs'
    ok (
      fs'',
      o.build fs'' (calls config_dir data_dir log_file (unwrap_or mode (codes "development"))),
    )

-- The last override of a key.
abbrev pub last_override : Bytes → List Call → Option Bytes
last_override key [] = none
last_override key (set_override k v ∷ cs) = elim (last_override key cs) [
  | none ↦ (if equal k key then some v else none)
  | some w ↦ some w
]
last_override key (_ ∷ cs) = last_override key cs

-- The keys that `Settings::new` overrides, and where they stand in the settings.
pub data Key : Type 0 where
  config_dir data_dir log_file run_mode : Key

abbrev pub path_of : Key → Bytes
path_of config_dir = codes "global.config_dir"
path_of data_dir = codes "global.data_dir"
path_of log_file = codes "global.log_file"
path_of run_mode = codes "global.run_mode"

abbrev pub value_of : Key → Global → Bytes
value_of config_dir g = g.config_dir
value_of data_dir g = g.data_dir
value_of log_file g = g.log_file
value_of run_mode g = g.run_mode

-- What the crates and the file system document: an override beats every file and the environment; a
-- directory that was created is there, and the others stay.
pub record Documented (o : Outside) : Type 0 where
  pub overrides :
      (fs : o.Fs) (cs : List Call) (conf : Settings) (k : Key) (v : Bytes)
      → o.build fs cs ≡ some conf
      → last_override (path_of k) cs ≡ some v
      → value_of k conf.global ≡ v
  pub created :
      (dir : Bytes) (fs fs' : o.Fs) → o.create_dir_all dir fs ≡ some fs' → o.is_dir dir fs' ≡ true
  pub others :
      (dir other : Bytes) (fs fs' : o.Fs)
      → o.create_dir_all dir fs ≡ some fs'
      → o.is_dir other fs ≡ true
      → o.is_dir other fs' ≡ true

module _ (o : Outside) (d : Documented o) where
  -- A directory that can be made is there afterwards, and so are those that were.
  ensure_dir_lem :
      (dir : Bytes) (fs : o.Fs)
      → (fs' : o.Fs) × (o.create_dir_all dir fs ≡ some fs')
      → (fs' : o.Fs) × (ensure_dir o dir fs ≡ ok fs')
        × (o.is_dir dir fs' ≡ true)
        × ((other : Bytes) → o.is_dir other fs ≡ true → o.is_dir other fs' ≡ true)
  unfolding ensure_dir
  ensure_dir_lem dir fs (made, e) = elim (Bool-cases (o.is_dir dir fs)) [
    | inl there ↦ (fs, rw there refl, there, λ other h. h)
    | inr gone ↦ (
      made,
      rw (gone, e) refl,
      d.created dir fs made e,
      λ other h. d.others dir other fs made e h,
    )
  ]

  -- With each key at its override the global section is known.
  global_is :
      {conf_dir dat_dir log mode : Bytes} (conf : Settings)
      → ((k : Key) (v : Bytes)
          → last_override (path_of k) (calls conf_dir dat_dir log mode) ≡ some v
          → value_of k conf.global ≡ v)
      → conf.global
        ≡ record { config_dir = conf_dir; data_dir = dat_dir; log_file = log; run_mode = mode }
  global_is {conf_dir} {dat_dir} {log} {mode} conf at =
      let c = at config_dir conf_dir refl in
      let t = at data_dir dat_dir refl in
      let l = at log_file log refl in let m = at run_mode mode refl in cc

  pub new_runs :
      (appname : Bytes) (mode : Option Bytes) (fs : o.Fs) (conf_dir dat_dir log : Bytes)
      → dir_or (o.config_dir appname) (codes "config") ≡ ok conf_dir
      → dir_or (o.data_dir appname) (codes "data") ≡ ok dat_dir
      → o.join dat_dir (appname ++ codes ".log") ≡ some log
      → ((dir : Bytes) (fs' : o.Fs) → (fs'' : o.Fs) × (o.create_dir_all dir fs' ≡ some fs''))
      → (fs' : o.Fs) × (new o appname mode fs
          ≡ ok (
            fs',
            o.build fs' (calls conf_dir dat_dir log (unwrap_or mode (codes "development"))),
          ))
        × (o.is_dir conf_dir fs' ≡ true)
        × (o.is_dir dat_dir fs' ≡ true)
  unfolding new
  new_runs appname mode fs conf_dir dat_dir log c t j makes =
      let (fs1, e1, there1, _) = ensure_dir_lem conf_dir fs (makes conf_dir fs) in
      let (fs2, e2, there2, kept) = ensure_dir_lem dat_dir fs1 (makes dat_dir fs1) in
      (fs2, rw (c, t, j, e1, e2) refl, kept conf_dir there1, there2)

  -- Settings that were built have the four keys as they were overridden.
  pub build-global :
      (fs : o.Fs) (conf_dir dat_dir log mode : Bytes) (conf : Settings)
      → o.build fs (calls conf_dir dat_dir log mode) ≡ some conf
      → conf.global
        ≡ record { config_dir = conf_dir; data_dir = dat_dir; log_file = log; run_mode = mode }
  build-global fs conf_dir dat_dir log mode conf e =
      global_is conf
        (λ k v found. d.overrides fs (calls conf_dir dat_dir log mode) conf k v e found)

  -- Let overrides win and let directories be made, as documented. If the paths of the project are text, and
  -- the file name joins to text, `Settings::new` does not panic: afterwards the two directories exist. If it
  -- gives settings, their global section is the one computed here, whatever files and environment say.
  pub new_lem :
      (appname : Bytes) (mode : Option Bytes) (fs : o.Fs) (conf_dir dat_dir log : Bytes)
      → dir_or (o.config_dir appname) (codes "config") ≡ ok conf_dir
      → dir_or (o.data_dir appname) (codes "data") ≡ ok dat_dir
      → o.join dat_dir (appname ++ codes ".log") ≡ some log
      → ((dir : Bytes) (fs' : o.Fs) → (fs'' : o.Fs) × (o.create_dir_all dir fs' ≡ some fs''))
      → (fs' : o.Fs) × (result : Option Settings) × (new o appname mode fs ≡ ok (fs', result))
        × (o.is_dir conf_dir fs' ≡ true)
        × (o.is_dir dat_dir fs' ≡ true)
        × ((conf : Settings)
            → result ≡ some conf
            → conf.global ≡ record {
              config_dir = conf_dir;
              data_dir = dat_dir;
              log_file = log;
              run_mode = unwrap_or mode (codes "development");
            })
  new_lem appname mode fs conf_dir dat_dir log c t j makes =
      let (fs', e, there, there') = new_runs appname mode fs conf_dir dat_dir log c t j makes in
      let mode' = unwrap_or mode (codes "development") in
      (
        fs',
        o.build fs' (calls conf_dir dat_dir log mode'),
        e,
        there,
        there',
        λ conf built. build-global fs' conf_dir dat_dir log mode' conf built,
      )
