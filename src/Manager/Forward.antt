-- ===== src/Manager/Forward.antt =====
-- crates/sandbox-manager/src/router/forward.rs: a request is passed to the daemon of a sandbox, and a
-- mutation counts its activity revision up.
pub mod Counts
use ephemeral_sandbox.Prelude.{
  ℕ, Bool, true, false, ◌&&◌, not, Option, none, some, List, [], ◌∷◌, Text, text, text_eq, has,
  if◌then◌else◌,
}
use ephemeral_sandbox.Manager.Model.{
  SandboxId, SandboxState, ready, state_eq, SandboxDaemonEndpoint, SandboxRecord, ManagerError,
  invalid_sandbox_id, invalid_state_transition, daemon_unavailable, Outcome, done, refused, id_new,
}
use ephemeral_sandbox.Manager.Store.{Codec, SandboxStore, Reply, inspect, advance_activity_revision}

pub data OperationScope : Type 0 where
  system : OperationScope
  sandbox : Text → OperationScope

pub record OperationRequest : Type 0 where
  pub op : Text
  pub scope : OperationScope

-- The members of the answer's `error` that are read, where there is an `error`.
pub record ResponseError : Type 0 where
  pub stage : Option Text
  pub publish_completed : Option Bool

pub record OperationResponse : Type 0 where
  pub error : Option ResponseError

-- The trait `SandboxDaemonClient`.
abbrev pub Client : Type 0
Client = SandboxDaemonEndpoint → OperationRequest → Outcome OperationResponse

abbrev pub publish_workspace_session : Text
publish_workspace_session = text "publish_workspace_session"

abbrev pub mutations : List Text
mutations =
    text "exec_command"
    ∷ text "write_command_stdin"
    ∷ text "file_write"
    ∷ text "file_edit"
    ∷ text "create_workspace_session"
    ∷ publish_workspace_session
    ∷ text "destroy_workspace_session"
    ∷ text "squash_layerstack"
    ∷ []

unfoldable pub is_mutation : Text → Bool
unfolding has
is_mutation operation = has operation mutations

-- `as_str() == Some("destroy")`, `as_bool() == Some(true)`.
unfoldable pub is_destroy_stage : Option Text → Bool
is_destroy_stage none = false
is_destroy_stage (some stage) = text_eq stage (text "destroy")

unfoldable pub is_true : Option Bool → Bool
is_true none = false
is_true (some b) = b

unfoldable pub advances_activity_revision : OperationResponse → Text → Bool
unfolding is_mutation is_destroy_stage is_true
advances_activity_revision response operation = is_mutation operation && elim response.error [
  | none ↦ true
  | some e ↦
      text_eq operation publish_workspace_session
      && is_destroy_stage e.stage
      && is_true e.publish_completed
]

unfoldable pub sandbox_id : OperationScope → Outcome SandboxId
unfolding id_new
sandbox_id (sandbox id) = id_new id
sandbox_id system = refused (invalid_sandbox_id (text "system"))

unfoldable pub endpoint_of : SandboxId → Outcome SandboxRecord → Outcome SandboxDaemonEndpoint
endpoint_of id (refused e) = refused e
endpoint_of id (done r) =
    if not (state_eq r.state ready)
    then refused (invalid_state_transition id r.state ready)
    else elim r.daemon [ none ↦ refused (daemon_unavailable id) | some endpoint ↦ done endpoint ]

unfoldable pub daemon_endpoint : SandboxStore → SandboxId → Outcome SandboxDaemonEndpoint
unfolding endpoint_of inspect
daemon_endpoint store id = endpoint_of id (inspect store id)

module _ (codec : Codec) (client : Client) where
  unfoldable pub after_advance : OperationResponse → Reply SandboxRecord → Reply OperationResponse
  after_advance response (store, refused e) = (store, refused e)
  after_advance response (store, done _) = (store, done response)

  unfoldable pub after_invoke :
      SandboxStore → SandboxId → Text → Outcome OperationResponse → Reply OperationResponse
  unfolding advances_activity_revision after_advance
  after_invoke store id operation (refused e) = (store, refused e)
  after_invoke store id operation (done response) =
      if advances_activity_revision response operation
      then after_advance response (advance_activity_revision codec store id)
      else (store, done response)

  unfoldable pub after_endpoint :
      SandboxStore
      → SandboxId
      → OperationRequest
      → Outcome SandboxDaemonEndpoint
      → Reply OperationResponse
  unfolding after_invoke
  after_endpoint store id request (refused e) = (store, refused e)
  after_endpoint store id request (done endpoint) =
      after_invoke store id request.op (client endpoint request)

  unfoldable pub after_id :
      SandboxStore → OperationRequest → Outcome SandboxId → Reply OperationResponse
  unfolding after_endpoint daemon_endpoint
  after_id store request (refused e) = (store, refused e)
  after_id store request (done id) = after_endpoint store id request (daemon_endpoint store id)

  unfoldable pub forward_sandbox_request : SandboxStore → OperationRequest → Reply OperationResponse
  unfolding after_id sandbox_id
  forward_sandbox_request store request = after_id store request (sandbox_id request.scope)
