-- ===== src/Manager/Lifecycle/Creating.antt =====
-- crates/sandbox-manager/src/management/service/impls/create_sandbox.rs: what the creation of a sandbox
-- leaves, wherever it fails.
use ephemeral_sandbox.Prelude.{
  ◌+◌, ◌≡◌, refl, sym, ◌∙◌, subst, ◌&&◌, ap, has-dropped, ◌++◌, Bool, true, false, Option, none,
  some, List, [], has, Bool-cases, inl, inr, text_eq→eq, if◌then◌else◌, ◌∷◌, arith, Text, text_eq,
  dropped, find,
}
use mathlib.Core.List.{append_assoc}
use ephemeral_sandbox.Manager.Model.{
  SandboxId, creating, ready, state_eq, SharedBaseMount, SandboxRecord, record_new, RegistryAction,
  registry_persist_failed, ManagerError, Outcome, done, refused,
}
use ephemeral_sandbox.Manager.Store.{Codec, SandboxStore, ids}
use ephemeral_sandbox.Manager.Store.Listing.{Keyed}
use ephemeral_sandbox.Manager.Store.Spec.{
  creates, moves, sets_endpoints, run, target, wanted, wanted_new,
}
use ephemeral_sandbox.Manager.Lifecycle.{
  Ports, Machine, Call, stops, destroys, CreateSandboxResult, StartedDaemon, is_some, destroyed,
  rollback, rollback_all, provision_daemon, after_ready, after_endpoints, after_provision,
  after_record, after_create, create_one,
}
use ephemeral_sandbox.Manager.Lifecycle.Effects.{
  Kept, Kept-trans, Replies, accepted, unsaved, run-Settled, removed,
}

-- What is left at the id of a new sandbox: a record that is ready, with a daemon; nothing, after an
-- error; or, where the registry could not be written, the record of a creation that goes no further.
pub data Created (id : SandboxId) (store : SandboxStore) : Outcome SandboxRecord → Type 0 where
  serving :
      {r : SandboxRecord}
      → find id store.records ≡ some r
      → r.state ≡ ready
      → is_some r.daemon ≡ true
      → Created id store (done r)
  undone : {e : ManagerError} → find id store.records ≡ none → Created id store (refused e)
  stranded :
      {action : RegistryAction} {r : SandboxRecord}
      → find id store.records ≡ some r
      → r.state ≡ creating
      → Created id store (refused (registry_persist_failed action))

abbrev pub Finished : SandboxId → SandboxStore → Machine × Outcome SandboxRecord → Type 0
Finished id before result = Created id result.0.store result.1 × Kept id before result.0.store

unfoldable is_done : {A : Type 0} → Outcome A → Bool
is_done (done _) = true
is_done (refused _) = false

module _ (codec : Codec) (ports : Ports) where
  destroyed-store :
      (machine : Machine) (r : SandboxRecord)
      → (destroyed codec ports machine r).store ≡ machine.store
  unfolding destroyed
  destroyed-store machine r = same (ports.destroy_sandbox r)
    where
      same :
          (o : Outcome (Unit {0}))
          → (elim o as (λ _. Machine) [
            | done _ ↦ record machine {
              containers = dropped r.id machine.containers;
              calls = destroys r ∷ machine.calls;
            }
            | refused _ ↦ record machine { calls = destroys r ∷ machine.calls }
          ]).store
            ≡ machine.store
      same (done _) = refl
      same (refused _) = refl

  rollback_gone :
      (machine : Machine) (r : SandboxRecord)
      → Keyed machine.store.records
      → machine.store.poisoned ≡ false
      → let after = (rollback codec ports machine r).store in
        (find r.id after.records ≡ none) × Kept r.id machine.store after
  unfolding rollback
  rollback_gone machine r keyed open_ =
      rw (destroyed-store (record machine { calls = stops r ∷ machine.calls }) r)
        (removed codec machine.store r.id keyed open_)

  rollback-Finished :
      (machine : Machine) (r : SandboxRecord) (e : ManagerError)
      → Keyed machine.store.records
      → machine.store.poisoned ≡ false
      → Finished r.id machine.store (rollback codec ports machine r, refused e)
  rollback-Finished machine r e keyed open_ =
      let gone = rollback_gone machine r keyed open_ in (undone gone.0, gone.1)

  -- Nothing but the containers and the calls is changed by a rollback outside of the store.
  record RolledBack (r : SandboxRecord) (before after : Machine) : Type 0 where
    containers :
        (id : SandboxId)
        → has id after.containers ≡ (
            if text_eq r.id id && is_done (ports.destroy_sandbox r)
            then false
            else has id before.containers)
    calls : after.calls ≡ destroys r ∷ stops r ∷ before.calls
    rings : after.rings ≡ before.rings
    creations : after.creations ≡ before.creations

  rollback-RolledBack :
      (machine : Machine) (r : SandboxRecord)
      → RolledBack r machine (rollback codec ports machine r)
  unfolding rollback destroyed is_done
  rollback-RolledBack machine r = ended (ports.destroy_sandbox r) refl
    where
      ended :
          (o : Outcome (Unit {0}))
          → ports.destroy_sandbox r ≡ o
          → RolledBack r machine (rollback codec ports machine r)
      ended (done _) e = record {
        containers = λ id.
            rw (e, rollback, destroyed) (ground (arith, has-dropped r.id id machine.containers));
        calls = rw (e, rollback, destroyed) refl;
        rings = rw (e, rollback, destroyed) refl;
        creations = rw (e, rollback, destroyed) refl;
      }
      ended (refused _) e = record {
        containers = λ id. rw (e, rollback, destroyed) (ground arith);
        calls = rw (e, rollback, destroyed) refl;
        rings = rw (e, rollback, destroyed) refl;
        creations = rw (e, rollback, destroyed) refl;
      }

  -- The records whose destruction the runtime accepts.
  pub granted : List SandboxRecord → List SandboxRecord
  unfolding is_done
  granted [] = []
  granted (r ∷ rs) = elim (is_done (ports.destroy_sandbox r)) [
    | true ↦ r ∷ granted rs
    | false ↦ granted rs
  ]

  -- The calls of a rollback of the records, the newest call first: for each record, the newest first,
  -- its daemon is stopped and then it is destroyed.
  pub undoing : List SandboxRecord → List Call
  undoing [] = []
  undoing (r ∷ rs) = undoing rs ++ (destroys r ∷ stops r ∷ [])

  rollback_all-records :
      (machine : Machine) (made : List SandboxRecord)
      → Keyed machine.store.records
      → machine.store.poisoned ≡ false
      → (id : SandboxId)
      → find id (rollback_all codec ports machine made).store.records
        ≡ (if has id (ids made) then none else find id machine.store.records)
  unfolding rollback_all has ids
  rollback_all-records machine [] keyed open_ id = refl
  rollback_all-records machine (r ∷ rs) keyed open_ id =
      let (gone, kept) = rollback_gone machine r keyed open_ in
      let rest =
        rollback_all-records (rollback codec ports machine r) rs kept.keyed (kept.lock ∙ open_)
          id in
      rest ∙ elim (Bool-cases (text_eq r.id id)) [
        | inl own ↦
            let here =
              subst (λ i. find i (rollback codec ports machine r).store.records ≡ none)
                (text_eq→eq r.id id own) gone in
            rw (own, here) (both (has id (ids rs)))
        | inr other ↦ rw (other, kept.others id other)
      ]
    where
      both : (b : Bool) → (if b then none else none) ≡ (let o : Option SandboxRecord = none in o)
      both true = refl
      both false = refl

  rollback_all-containers :
      (machine : Machine) (made : List SandboxRecord) (id : SandboxId)
      → has id (rollback_all codec ports machine made).containers
        ≡ (if has id (ids (granted made)) then false else has id machine.containers)
  unfolding rollback_all has ids granted
  rollback_all-containers machine [] id = refl
  rollback_all-containers machine (r ∷ rs) id =
      rollback_all-containers (rollback codec ports machine r) rs id
      ∙ elim (Bool-cases (is_done (ports.destroy_sandbox r))) [
        | inl e ↦ rw (e, granted) (ground (arith, (rollback-RolledBack machine r).containers id, e))
        | inr e ↦ rw (e, granted) (ground (arith, (rollback-RolledBack machine r).containers id, e))
      ]

  rollback_all-calls :
      (machine : Machine) (made : List SandboxRecord)
      → let after = rollback_all codec ports machine made in
        (after.calls ≡ undoing made ++ machine.calls)
        × (after.rings ≡ machine.rings)
        × (after.creations ≡ machine.creations)
  unfolding rollback_all undoing
  rollback_all-calls machine [] = (refl, refl, refl)
  rollback_all-calls machine (r ∷ rs) =
      let back = rollback-RolledBack machine r in
      let (c, g, n) = rollback_all-calls (rollback codec ports machine r) rs in
      (
        c
            ∙ (ap (◌++◌ (undoing rs)) back.calls
                ∙ sym (append_assoc (undoing rs) (destroys r ∷ stops r ∷ []) machine.calls)),
        g ∙ back.rings,
        n ∙ back.creations,
      )

  -- Rolling a batch back stops the daemon of each of its records and destroys it, the newest first,
  -- whatever these calls return. After it, where the lock is open, nothing is left at the ids of the
  -- records and every other id has the record that it had; the containers of the records whose
  -- destruction the runtime accepts are gone and the others are as they were; and so are the resource
  -- rings and the count of creations.
  pub rollback_all-removes :
      (machine : Machine) (made : List SandboxRecord)
      → Keyed machine.store.records
      → machine.store.poisoned ≡ false
      → let after = rollback_all codec ports machine made in
        ((id : SandboxId)
          → find id after.store.records
            ≡ (if has id (ids made) then none else find id machine.store.records))
        × ((id : SandboxId)
            → has id after.containers
              ≡ (if has id (ids (granted made)) then false else has id machine.containers))
        × (after.calls ≡ undoing made ++ machine.calls)
        × (after.rings ≡ machine.rings)
        × (after.creations ≡ machine.creations)
  rollback_all-removes machine made keyed open_ =
      let (called, rings, counted) = rollback_all-calls machine made in
      (
        rollback_all-records machine made keyed open_,
        rollback_all-containers machine made,
        called,
        rings,
        counted,
      )

  -- The last step, from what the transition has left.
  ready-Finished :
      (machine : Machine) (before store : SandboxStore) (r next : SandboxRecord)
      {reply : Outcome SandboxRecord}
      → Kept r.id before store
      → before.poisoned ≡ false
      → find r.id store.records ≡ some next
      → next.state ≡ ready
      → is_some next.daemon ≡ true
      → Replies next reply
      → Finished r.id before (after_ready codec ports machine r (store, reply))
  unfolding after_ready
  ready-Finished machine before store r next kept open_ at is daemon accepted =
      (serving at is daemon, kept)
  ready-Finished machine before store r next kept open_ at is daemon (unsaved action) =
      let back =
        rollback-Finished (record machine { store = store }) r (registry_persist_failed action)
          kept.keyed (kept.lock ∙ open_) in
      (back.0, Kept-trans r.id before store _ kept back.1)

  -- From what the write of the endpoints has left.
  endpoints-Finished :
      (machine : Machine) (before store : SandboxStore) (r mid : SandboxRecord)
      {reply : Outcome SandboxRecord}
      → Kept r.id before store
      → before.poisoned ≡ false
      → find r.id store.records ≡ some mid
      → mid.state ≡ creating
      → is_some mid.daemon ≡ true
      → Replies mid reply
      → Finished r.id before (after_endpoints codec ports machine r (store, reply))
  unfolding after_endpoints run target wanted state_eq
  endpoints-Finished machine before store r mid kept open_ at is daemon accepted =
      let next = record mid { state = ready } in
      let s =
        run-Settled codec store (moves r.id creating ready) (some next) next kept.keyed
          (kept.lock ∙ open_) (rw at (moved r.id mid is)) in
      ready-Finished machine before _ r next (Kept-trans r.id before store _ kept s.kept) open_
        s.holds refl daemon s.replies
    where
      moved :
          (id : SandboxId) (r : SandboxRecord)
          → r.state ≡ creating
          → wanted (moves id creating ready) r
            ≡ done (some (record r { state = ready }), record r { state = ready })
      moved id r e = ground arith
  endpoints-Finished machine before store r mid kept open_ at is daemon (unsaved action) =
      let back =
        rollback-Finished (record machine { store = store }) r (registry_persist_failed action)
          kept.keyed (kept.lock ∙ open_) in
      (back.0, Kept-trans r.id before store _ kept back.1)

  provision-Finished :
      (machine : Machine) (before : SandboxStore) (r : SandboxRecord)
      (started : Outcome StartedDaemon)
      → Kept r.id before machine.store
      → before.poisoned ≡ false
      → find r.id machine.store.records ≡ some r
      → r.state ≡ creating
      → Finished r.id before (after_provision codec ports machine r started)
  unfolding after_provision run target wanted is_some
  provision-Finished machine before r (done started) kept open_ at is =
      let store = machine.store in
      let mid = record r { daemon = some started.daemon; daemon_http = started.daemon_http } in
      let s =
        run-Settled codec store (sets_endpoints r.id (some started.daemon) started.daemon_http)
          (some mid) mid kept.keyed (kept.lock ∙ open_) (rw at) in
      endpoints-Finished machine before _ r mid (Kept-trans r.id before store _ kept s.kept) open_
        s.holds is refl s.replies
  provision-Finished machine before r (refused e) kept open_ at is =
      let back = rollback-Finished machine r e kept.keyed (kept.lock ∙ open_) in
      (back.0, Kept-trans r.id before machine.store _ kept back.1)

  record-Finished :
      (machine : Machine) (before store : SandboxStore) (untracked r : SandboxRecord)
      {reply : Outcome SandboxRecord}
      → Kept r.id before store
      → before.poisoned ≡ false
      → find r.id store.records ≡ some r
      → r.state ≡ creating
      → Replies r reply
      → Finished r.id before (after_record codec ports machine untracked (store, reply))
  unfolding after_record
  record-Finished machine before store untracked r kept open_ at is accepted =
      provision-Finished (record machine { store = store }) before r
        (provision_daemon codec ports r) kept open_ at is
  record-Finished machine before store untracked r kept open_ at is (unsaved action) =
      rw (destroyed-store (record machine { store = store }) untracked) (stranded at is, kept)

  -- Where the runtime has made a sandbox with a new id, the creation ends with a ready record that has
  -- its daemon, or in an error with nothing at the id, or in a failed write of the registry with a
  -- record that stays in the state creating; the other ids hold what they held.
  pub create_one-Finished :
      (machine : Machine) (image root : Text) (base : SharedBaseMount)
      (created : CreateSandboxResult)
      → Keyed machine.store.records
      → machine.store.poisoned ≡ false
      → ports.create_sandbox machine.creations
          (record { image = image; workspace_root = root; shared_base = some base })
        ≡ done created
      → find created.id machine.store.records ≡ none
      → Finished created.id machine.store (create_one codec ports machine image root base)
  unfolding create_one after_create run target wanted_new record_new
  create_one-Finished machine image root base created keyed open_ e new =
      let r : SandboxRecord = record {
        id = created.id;
        workspace_root = root;
        state = creating;
        activity_revision = 0;
        daemon = none;
        daemon_http = none;
        shared_base = some base;
        resource_profile = created.resource_profile;
      } in
      let s =
        run-Settled codec machine.store
          (creates created.id root (some base) created.resource_profile) (some r) r keyed open_
          (rw new) in
      rw (e, after_create)
        (record-Finished
          (record machine {
            creations = machine.creations + 1;
            containers = created.id ∷ machine.containers;
          })
          machine.store
          (run codec machine.store (creates created.id root (some base) created.resource_profile)).0
          r r s.kept open_ s.holds refl s.replies)
