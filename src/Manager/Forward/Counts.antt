-- ===== src/Manager/Forward/Counts.antt =====
-- crates/sandbox-manager/src/router/forward.rs: which daemon answers a request, and when the revision
-- of the sandbox is counted up.
use ephemeral_sandbox.Prelude.{
  ℕ, ◌+◌, ◌≤◌, ◌≡◌, refl, sym, ap, ◌∙◌, subst, true, false, Bool-cases, inl, inr, Option-cases,
  some, arith, find, ltb,
}
use ephemeral_sandbox.Manager.Model.{
  SandboxId, SandboxState, ready, state_eq, SandboxDaemonEndpoint, SandboxRecord, RegistryAction,
  registry_persist_failed, runtime_failed, ManagerError, Outcome, done, refused,
}
use ephemeral_sandbox.Manager.Store.{
  Codec, SandboxStore, Reply, u64_limit, inspect, seen, advance_activity_revision,
}
use ephemeral_sandbox.Manager.Store.Listing.{Keyed}
use ephemeral_sandbox.Manager.Store.Spec.{advances, run, target, wanted}
use ephemeral_sandbox.Manager.Lifecycle.Effects.{
  Kept, Replies, accepted, unsaved, run-Settled, run_refused,
}
use ephemeral_sandbox.Manager.Forward.{
  OperationRequest, OperationResponse, Client, sandbox_id, endpoint_of, daemon_endpoint,
  advances_activity_revision, after_advance, after_invoke, after_endpoint, after_id,
  forward_sandbox_request,
}

-- The sandbox that a request names is ready and has its daemon there.
pub record Served (store : SandboxStore) (request : OperationRequest) (id : SandboxId)
    (r : SandboxRecord) (endpoint : SandboxDaemonEndpoint) : Type 0 where
  pub named : sandbox_id request.scope ≡ done id
  pub found : find id store.records ≡ some r
  pub is_ready : r.state ≡ ready
  pub has_daemon : r.daemon ≡ some endpoint

abbrev pub counted_up_once : SandboxRecord → SandboxRecord
counted_up_once r = record r { activity_revision = r.activity_revision + 1 }

pub data Forwarded (client : Client) (store : SandboxStore) (request : OperationRequest)
    : Reply OperationResponse → Type 0 where
  -- No daemon has answered.
  unanswered :
      {e : ManagerError}
      → ((id : SandboxId) (r : SandboxRecord) (endpoint : SandboxDaemonEndpoint)
            (response : OperationResponse)
          → Served store request id r endpoint
          → client endpoint request ≡ done response
          → ⊥)
      → Forwarded client store request (store, refused e)
  -- The answer of the daemon is no mutation, and the store is as it was.
  plain :
      {id : SandboxId} {r : SandboxRecord} {endpoint : SandboxDaemonEndpoint}
      {response : OperationResponse}
      → Served store request id r endpoint
      → client endpoint request ≡ done response
      → advances_activity_revision response request.op ≡ false
      → Forwarded client store request (store, done response)
  -- It is one, and the revision is counted up.
  counted :
      {id : SandboxId} {r : SandboxRecord} {endpoint : SandboxDaemonEndpoint}
      {response : OperationResponse} {after : SandboxStore}
      → Served store request id r endpoint
      → client endpoint request ≡ done response
      → advances_activity_revision response request.op ≡ true
      → find id after.records ≡ some (counted_up_once r)
      → Kept id store after
      → Forwarded client store request (after, done response)
  -- The same, with a registry that could not be written.
  counted_unsaved :
      {id : SandboxId} {r : SandboxRecord} {endpoint : SandboxDaemonEndpoint}
      {response : OperationResponse} {after : SandboxStore} {action : RegistryAction}
      → Served store request id r endpoint
      → client endpoint request ≡ done response
      → advances_activity_revision response request.op ≡ true
      → find id after.records ≡ some (counted_up_once r)
      → Kept id store after
      → Forwarded client store request (after, refused (registry_persist_failed action))
  -- The revision is the largest 64-bit number.
  exhausted :
      {id : SandboxId} {r : SandboxRecord} {endpoint : SandboxDaemonEndpoint}
      {response : OperationResponse}
      → Served store request id r endpoint
      → client endpoint request ≡ done response
      → advances_activity_revision response request.op ≡ true
      → u64_limit ≤ r.activity_revision + 1
      → Forwarded client store request (store, refused runtime_failed)

refusal : {A : Type 0} {e : ManagerError} {a : A} → refused e ≡ done a → ⊥
refusal h = cc

module _ (store : SandboxStore) where
  -- The endpoint is the one of the record, which is ready.
  endpoint_done :
      (id : SandboxId) (endpoint : SandboxDaemonEndpoint)
      → daemon_endpoint store id ≡ done endpoint
      → (r : SandboxRecord) × (find id store.records ≡ some r)
        × (r.state ≡ ready)
        × (r.daemon ≡ some endpoint)
  unfolding daemon_endpoint endpoint_of inspect seen state_eq
  endpoint_done id endpoint h = elim (Option-cases (find id store.records)) [
    | inl e ↦ absurd (ground arith)
    | inr (r, e) ↦ (r, e, ground arith, ground arith)
  ]

  done_endpoint :
      (id : SandboxId) (r : SandboxRecord) (endpoint : SandboxDaemonEndpoint)
      → store.poisoned ≡ false
      → find id store.records ≡ some r
      → r.state ≡ ready
      → r.daemon ≡ some endpoint
      → daemon_endpoint store id ≡ done endpoint
  unfolding daemon_endpoint endpoint_of inspect seen state_eq
  done_endpoint id r endpoint open_ found is daemon = ground arith

  Served-endpoint :
      (request : OperationRequest) {id id' : SandboxId} {r : SandboxRecord}
      {endpoint : SandboxDaemonEndpoint}
      → store.poisoned ≡ false
      → sandbox_id request.scope ≡ done id
      → Served store request id' r endpoint
      → daemon_endpoint store id ≡ done endpoint
  Served-endpoint request {id} {id'} {r} {endpoint} open_ named s =
      let ids : id' ≡ id = done-injective (sym s.named ∙ named) in
      done_endpoint id r endpoint open_ (subst (λ i. find i store.records ≡ some r) ids s.found)
        s.is_ready s.has_daemon
    where
      done-injective : {A : Type 0} {x y : A} → done x ≡ done y → x ≡ y
      done-injective h = cc

wanted-low :
    (id : SandboxId) (r : SandboxRecord)
    → ltb (r.activity_revision + 1) u64_limit ≡ true
    → wanted (advances id) r ≡ done (some (counted_up_once r), counted_up_once r)
unfolding wanted
wanted-low id r h = ground arith

wanted-high :
    (id : SandboxId) (r : SandboxRecord)
    → ltb (r.activity_revision + 1) u64_limit ≡ false
    → wanted (advances id) r ≡ refused runtime_failed
unfolding wanted
wanted-high id r h = ground arith

not_below : (n : ℕ) → ltb n u64_limit ≡ false → u64_limit ≤ n
not_below n h = ground arith

state_eq→eq : (s t : SandboxState) → state_eq s t ≡ true → s ≡ t
unfolding state_eq
state_eq→eq s t h = ground arith

module _ (codec : Codec) (client : Client) (store : SandboxStore) (request : OperationRequest)
    (keyed : Keyed store.records) (open_ : store.poisoned ≡ false) where
  advanced :
      (id : SandboxId) (r : SandboxRecord) (endpoint : SandboxDaemonEndpoint)
      (response : OperationResponse)
      → Served store request id r endpoint
      → client endpoint request ≡ done response
      → advances_activity_revision response request.op ≡ true
      → Forwarded client store request
          (after_advance codec client response (advance_activity_revision codec store id))
  unfolding run target after_advance
  advanced id r endpoint response served answer counts =
      elim (Bool-cases (ltb (r.activity_revision + 1) u64_limit)) [
        | inl low ↦
            let s =
              run-Settled codec store (advances id) (some (counted_up_once r)) (counted_up_once r)
                keyed open_ (rw served.found (wanted-low id r low)) in
            told (advance_activity_revision codec store id).0 s.holds s.kept s.replies
        | inr high ↦
            let same =
              run_refused codec store (advances id) runtime_failed keyed open_
                (rw served.found (wanted-high id r high)) in
            subst
              (λ reply. Forwarded client store request (after_advance codec client response reply))
              (sym same) (exhausted served answer counts (not_below (r.activity_revision + 1) high))
      ]
    where
      told :
          (after : SandboxStore) {reply : Outcome SandboxRecord}
          → find id after.records ≡ some (counted_up_once r)
          → Kept id store after
          → Replies (counted_up_once r) reply
          → Forwarded client store request (after_advance codec client response (after, reply))
      told after holds kept accepted = counted served answer counts holds kept
      told after holds kept (unsaved action) = counted_unsaved served answer counts holds kept

  -- Nothing is served where a step before the daemon fails.
  invoked :
      (id : SandboxId) (r : SandboxRecord) (endpoint : SandboxDaemonEndpoint)
      (answer : Outcome OperationResponse)
      → Served store request id r endpoint
      → client endpoint request ≡ answer
      → Forwarded client store request (after_invoke codec client store id request.op answer)
  unfolding after_invoke
  invoked id r endpoint (refused e) served h =
      unanswered λ id' r' endpoint' response served' answer.
        let own = Served-endpoint store request open_ served.named served in
        let other = Served-endpoint store request open_ served.named served' in
        let same : endpoint ≡ endpoint' = cc (own, other) in
        refusal (sym h ∙ ap (λ p. client p request) same ∙ answer)
  invoked id r endpoint (done response) served h =
      elim (Bool-cases (advances_activity_revision response request.op)) [
        | inl counts ↦ rw counts (advanced id r endpoint response served h counts)
        | inr plainly ↦ rw plainly (plain served h plainly)
      ]

  reached :
      (id : SandboxId) (o : Outcome SandboxDaemonEndpoint)
      → sandbox_id request.scope ≡ done id
      → daemon_endpoint store id ≡ o
      → Forwarded client store request (after_endpoint codec client store id request o)
  unfolding after_endpoint
  reached id (done endpoint) named h =
      let (r, found, is, daemon) = endpoint_done store id endpoint h in
      invoked id r endpoint (client endpoint request)
        (record { named = named; found = found; is_ready = is; has_daemon = daemon }) refl
  reached id (refused e) named h = unanswered λ id' r endpoint response served answer.
      refusal (sym h ∙ Served-endpoint store request open_ named served)

  identified :
      (o : Outcome SandboxId)
      → sandbox_id request.scope ≡ o
      → Forwarded client store request (after_id codec client store request o)
  unfolding after_id
  identified (done id) h = reached id (daemon_endpoint store id) h refl
  identified (refused e) h =
      unanswered λ id r endpoint response served answer. refusal (sym h ∙ served.named)

-- A request for a sandbox is answered exactly by the daemon of the sandbox that it names, if that is
-- ready; the revision of the sandbox is counted up by one exactly if the answer is that of a
-- mutation, and where the registry cannot be written or the revision is the largest 64-bit number
-- the answer is lost. Without an answer the store is as it was.
pub forward_sandbox_request-Forwarded :
    (codec : Codec) (client : Client) (store : SandboxStore) (request : OperationRequest)
    → Keyed store.records
    → store.poisoned ≡ false
    → Forwarded client store request (forward_sandbox_request codec client store request)
unfolding forward_sandbox_request
forward_sandbox_request-Forwarded codec client store request keyed open_ =
    identified codec client store request keyed open_ (sandbox_id request.scope) refl
