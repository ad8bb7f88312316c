-- ===== src/Program/Runs.antt =====
-- What every step of the tasks of src/main.rs keeps, every schedule keeps.
use havok_rust.Base.{List, [], ◌∷◌, Bool-cases, inl, inr}
use havok_rust.Settings.{Settings}
use havok_rust.Program.State.{Tokio, World, Choice}
use havok_rust.Program.{choose, schedule, is_alive}

module _ (tokio : Tokio) (settings : Settings) where
  pub schedule_keeps {ℓ} :
      (P : World → Type ℓ)
      → ((w : World) (c : Choice) → P w → P (choose tokio settings w c))
      → (w : World) (cs : List Choice) → P w
      → P (schedule tokio settings w cs)
  unfolding schedule
  schedule_keeps P keeps w [] v = v
  schedule_keeps P keeps w (c ∷ cs) v = elim (Bool-cases (is_alive w.main)) [
    | inl alive ↦ rw alive (schedule_keeps P keeps (choose tokio settings w c) cs (keeps w c v))
    | inr over ↦ rw over (schedule_keeps P keeps w cs v)
  ]
