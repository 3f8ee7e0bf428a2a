-- ===== src/Manager/Model.antt =====
-- crates/sandbox-manager/src/model.rs, error.rs: the record of a sandbox, its states, ids and errors.
-- A path is a text; a `u64` is a natural number with its bound written out where it is counted up.
pub mod Id
use ephemeral_sandbox.Prelude.{
  ℕ, Bool, true, false, Option, none, some, List, [], ◌∷◌, ◌||◌, ◌&&◌, not, leb, ◌==◌,
  if◌then◌else◌, Text,
}
use ephemeral_sandbox.Layers.Changes.Path.{is_whitespace}

-- An `i64`: `negsuc n` is -(n + 1).
pub data ℤ : Type 0 where
  pos : ℕ → ℤ
  negsuc : ℕ → ℤ

-- The text of a `SandboxId`.
abbrev pub SandboxId : Type 0
SandboxId = Text

pub data SandboxState : Type 0 where
  creating ready stopping stopped failed : SandboxState

unfoldable pub state_eq : SandboxState → SandboxState → Bool
state_eq creating creating = true
state_eq ready ready = true
state_eq stopping stopping = true
state_eq stopped stopped = true
state_eq failed failed = true
state_eq _ _ = false

pub record SharedBaseMount : Type 0 where
  pub source : Text
  pub target : Text
  pub root_hash : Text
  pub readonly : Bool

pub record SandboxResourceProfile : Type 0 where
  pub name : Text
  pub nano_cpus : ℤ
  pub memory_high_bytes : ℤ
  pub memory_max_bytes : ℤ
  pub pids_max : ℤ
  pub workload_memory_high_bytes : ℤ
  pub workload_memory_max_bytes : ℤ
  pub workload_pids_max : ℤ
  pub control_plane_pids_reserve : ℤ
  pub daemon_runtime_profile : Text
  pub separate_workload_cgroup : Bool

pub record SandboxDaemonEndpoint : Type 0 where
  pub host : Text
  pub port : ℕ
  pub auth_token : Text

pub record SandboxHttpEndpoint : Type 0 where
  pub host : Text
  pub port : ℕ

pub record SandboxRecord : Type 0 where
  pub id : SandboxId
  pub workspace_root : Text
  pub state : SandboxState
  pub activity_revision : ℕ
  pub daemon : Option SandboxDaemonEndpoint
  pub daemon_http : Option SandboxHttpEndpoint
  pub shared_base : Option SharedBaseMount
  pub resource_profile : Option SandboxResourceProfile

-- `SandboxRecord::new`.
unfoldable pub record_new : SandboxId → Text → SandboxState → SandboxRecord
record_new id workspace_root state = record {
  id = id;
  workspace_root = workspace_root;
  state = state;
  activity_revision = 0;
  daemon = none;
  daemon_http = none;
  shared_base = none;
  resource_profile = none;
}

-- What `registry_error` was called for.
pub data RegistryAction : Type 0 where
  parse read serialize write : RegistryAction

-- `ManagerError`, its messages left out. A daemon, runtime or provisioning error comes from outside.
pub data ManagerError : Type 0 where
  invalid_sandbox_id : Text → ManagerError
  invalid_sandbox_count : ℕ → ManagerError
  duplicate_sandbox missing_sandbox daemon_unavailable : SandboxId → ManagerError
  invalid_state_transition : SandboxId → SandboxState → SandboxState → ManagerError
  invalid_workspace_root invalid_image runtime_failed daemon_install_failed : ManagerError
  workspace_setup_failed forwarding_failed invalid_export_dest export_failed : ManagerError
  store_poisoned : ManagerError
  registry_persist_failed : RegistryAction → ManagerError

pub data ErrorKind : Type 0 where
  invalid_request internal_error operation_failed : ErrorKind

-- `ManagerError::protocol_kind`.
unfoldable pub protocol_kind : ManagerError → ErrorKind
protocol_kind runtime_failed = internal_error
protocol_kind daemon_install_failed = internal_error
protocol_kind forwarding_failed = internal_error
protocol_kind store_poisoned = internal_error
protocol_kind (registry_persist_failed _) = internal_error
protocol_kind workspace_setup_failed = operation_failed
protocol_kind export_failed = operation_failed
protocol_kind _ = invalid_request

pub data Outcome {ℓ} (A : Type ℓ) : Type ℓ where
  done : A → Outcome A
  refused : ManagerError → Outcome A

-- `trim().is_empty()`.
unfoldable pub is_blank : Text → Bool
unfolding is_whitespace
is_blank [] = true
is_blank (c ∷ cs) = is_whitespace c && is_blank cs

-- `is_ascii_alphanumeric() || matches!(ch, '-' | '_' | '.')`.
unfoldable pub id_char : ℕ → Bool
id_char c =
    (leb b'a' c && leb c b'z')
    || (leb b'A' c && leb c b'Z')
    || (leb b'0' c && leb c b'9')
    || c == b'-'
    || c == b'_'
    || c == b'.'

unfoldable pub id_chars : Text → Bool
unfolding id_char
id_chars [] = true
id_chars (c ∷ cs) = id_char c && id_chars cs

-- `SandboxId::new`.
unfoldable pub id_new : Text → Outcome SandboxId
unfolding is_blank id_chars
id_new value =
    if is_blank value
    then refused (invalid_sandbox_id value)
    else if not (id_chars value)
    then refused (invalid_sandbox_id value)
    else done value
