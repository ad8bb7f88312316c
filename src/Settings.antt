-- ===== src/Settings.antt =====
-- src/settings.rs: the sections of the configuration. A `u16` port is a number; Settings.Load has how they
-- are read.
pub mod Load
use havok_rust.Base.{ℕ, Bytes, Bool}

-- `struct Global`.
pub record Global : Type 0 where
  pub config_dir : Bytes
  pub data_dir : Bytes
  pub log_file : Bytes
  pub run_mode : Bytes

-- `struct Mud`.
pub record Mud : Type 0 where
  pub hostname : Bytes
  pub bind_ip : Bytes
  pub port : ℕ
  pub name : Bytes
  pub wizlocked : Bool
  pub wizlock_reason : Bytes
  pub aws_region : Bytes
  pub aws_profile : Bytes

-- `struct DynamoDb`.
pub record DynamoDb : Type 0 where
  pub endpoint : Bytes
  pub use_ssl : Bool

-- `struct Redis`.
pub record Redis : Type 0 where
  pub host : Bytes
  pub port : ℕ

-- `struct Encryption`.
pub record Encryption : Type 0 where
  pub endpoint : Bytes
  pub use_ssl : Bool

-- `struct Email`.
pub record Email : Type 0 where
  pub mocked : Bool
  pub domain : Bytes
  pub admin : Bytes
  pub endpoint : Bytes
  pub use_ssl : Bool

-- `struct Settings`.
pub record Settings : Type 0 where
  pub debug : Bool
  pub global : Global
  pub mud : Mud
  pub dynamodb : DynamoDb
  pub redis : Redis
  pub encryption : Encryption
  pub email : Email

-- `enum ControlSignal` of src/main.rs.
pub data ControlSignal : Type 0 where
  reconfigure : Settings → ControlSignal
  shutdown : ControlSignal
