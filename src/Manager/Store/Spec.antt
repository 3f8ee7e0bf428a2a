-- ===== src/Manager/Store/Spec.antt =====
-- crates/sandbox-manager/src/store.rs: the store as a function from ids to records, which each of its
-- operations changes at one id.
use ephemeral_sandbox.Prelude.{
  ◌+◌, ◌≡◌, refl, sym, ◌∙◌, false, Option, Option-cases, none, some, inl, inr, Text, text_eq, find,
  inserted, erased, find-inserted, find-erased, if◌then◌else◌, ltb, arith,
}
use ephemeral_sandbox.Manager.Model.{
  SandboxId, SandboxState, creating, state_eq, SharedBaseMount, SandboxResourceProfile,
  SandboxDaemonEndpoint, SandboxHttpEndpoint, SandboxRecord, ManagerError, duplicate_sandbox,
  missing_sandbox, invalid_state_transition, runtime_failed, Outcome, done, refused,
}
use ephemeral_sandbox.Manager.Store.{
  Codec, Records, SandboxStore, Reply, u64_limit, locked, saved, insert,
  create_with_shared_base_and_profile, update, remove, changed, moved, counted_up, transition_state,
  set_state, update_endpoints, advance_activity_revision,
}
use ephemeral_sandbox.Manager.Store.Listing.{Keyed}
use ephemeral_sandbox.Manager.Store.Keyed.{erased-Keyed, inserted-Keyed, find-Keyed}
use ephemeral_sandbox.Manager.Store.Persisted.{Ends, saved-Ends}

pub data Command : Type 0 where
  inserts updates : SandboxRecord → Command
  creates : SandboxId → Text → Option SharedBaseMount → Option SandboxResourceProfile → Command
  removes advances : SandboxId → Command
  moves : SandboxId → SandboxState → SandboxState → Command
  sets_state : SandboxId → SandboxState → Command
  sets_endpoints : SandboxId → Option SandboxDaemonEndpoint → Option SandboxHttpEndpoint → Command

unfoldable pub run : Codec → SandboxStore → Command → Reply SandboxRecord
run codec store (inserts r) = insert codec store r
run codec store (updates r) = update codec store r
run codec store (creates id root base profile) =
    create_with_shared_base_and_profile codec store id root base profile
run codec store (removes id) = remove codec store id
run codec store (advances id) = advance_activity_revision codec store id
run codec store (moves id from to) = transition_state codec store id from to
run codec store (sets_state id state) = set_state codec store id state
run codec store (sets_endpoints id daemon http) = update_endpoints codec store id daemon http

-- The id that a command is about.
unfoldable pub target : Command → SandboxId
target (inserts r) = r.id
target (updates r) = r.id
target (creates id _ _ _) = id
target (removes id) = id
target (advances id) = id
target (moves id _ _) = id
target (sets_state id _) = id
target (sets_endpoints id _ _) = id

-- What the command asks for where a record is there.
unfoldable pub wanted : Command → SandboxRecord → Outcome (Option SandboxRecord × SandboxRecord)
wanted (inserts s) r = refused (duplicate_sandbox s.id)
wanted (updates s) r = done (some s, s)
wanted (creates id _ _ _) r = refused (duplicate_sandbox id)
wanted (removes id) r = done (none, r)
wanted (advances id) r =
    let next = record r { activity_revision = r.activity_revision + 1 } in
    if ltb next.activity_revision u64_limit then done (some next, next) else refused runtime_failed
wanted (moves id from to) r =
    let next = record r { state = to } in
    if state_eq r.state from
    then done (some next, next)
    else refused (invalid_state_transition id r.state to)
wanted (sets_state id state) r = let next = record r { state = state } in done (some next, next)
wanted (sets_endpoints id daemon http) r =
    let next = record r { daemon = daemon; daemon_http = http } in done (some next, next)

-- And where none is there.
unfoldable pub wanted_new : Command → Outcome (Option SandboxRecord × SandboxRecord)
wanted_new (inserts s) = done (some s, s)
wanted_new (creates id root base profile) =
    let new : SandboxRecord = record {
      id = id;
      workspace_root = root;
      state = creating;
      activity_revision = 0;
      daemon = none;
      daemon_http = none;
      shared_base = base;
      resource_profile = profile;
    } in
    done (some new, new)
wanted_new (updates s) = refused (missing_sandbox s.id)
wanted_new (removes id) = refused (missing_sandbox id)
wanted_new (advances id) = refused (missing_sandbox id)
wanted_new (moves id _ _) = refused (missing_sandbox id)
wanted_new (sets_state id _) = refused (missing_sandbox id)
wanted_new (sets_endpoints id _ _) = refused (missing_sandbox id)

-- The abstract effect of a command on what its id holds: the error, or the new content and the reply.
abbrev pub effect : Command → Option SandboxRecord → Outcome (Option SandboxRecord × SandboxRecord)
effect c none = wanted_new c
effect c (some r) = wanted c r

-- What is done at one id: an error leaves the store; a new content leaves the other ids, and is
-- written to the registry.
pub data Performs (codec : Codec) (store : SandboxStore) (id : SandboxId)
    : Outcome (Option SandboxRecord × SandboxRecord) → Reply SandboxRecord → Type 0 where
  rejected : {e : ManagerError} → Performs codec store id (refused e) (store, refused e)
  performed :
      {content : Option SandboxRecord} {r : SandboxRecord} {reply : Reply SandboxRecord}
      (m : Records)
      → ((j : SandboxId) → find j m ≡ (if text_eq id j then content else find j store.records))
      → Keyed m
      → Ends codec (record store { records = m }) r reply
      → Performs codec store id (done (content, r)) reply

module _ (codec : Codec) (store : SandboxStore) (keyed : Keyed store.records) where
  put-Performs :
      (id : SandboxId) (r : SandboxRecord)
      → id ≡ r.id
      → Performs codec store id
          (done (some r, r))
          (saved codec store (inserted id r store.records) r)
  put-Performs id r e =
      performed (inserted id r store.records) (λ j. find-inserted id j r store.records)
        (inserted-Keyed id r store.records e keyed)
        (saved-Ends codec store (inserted id r store.records) r)

  erased-Performs :
      (id : SandboxId) (r : SandboxRecord)
      → Performs codec store id (done (none, r)) (saved codec store (erased id store.records) r)
  erased-Performs id r =
      performed (erased id store.records) (λ j. find-erased id j store.records)
        (erased-Keyed id store.records keyed) (saved-Ends codec store (erased id store.records) r)

pub open_lock :
    (store : SandboxStore) {A : Type 0} (reply : Reply A)
    → store.poisoned ≡ false
    → locked store reply ≡ reply
unfolding locked
open_lock store reply h = ground arith

-- A changed record, as new content and reply.
kept : Outcome SandboxRecord → Outcome (Option SandboxRecord × SandboxRecord)
kept (done r) = done (some r, r)
kept (refused e) = refused e

counted_up-id : (r r' : SandboxRecord) → counted_up r ≡ done r' → r'.id ≡ r.id
unfolding counted_up
counted_up-id r r' h = ground arith

wanted-counted_up :
    (id : SandboxId) (r : SandboxRecord) → wanted (advances id) r ≡ kept (counted_up r)
unfolding wanted counted_up kept
wanted-counted_up id r = ground arith

moved-id :
    (id : SandboxId) (from to : SandboxState) (r r' : SandboxRecord)
    → moved id from to r ≡ done r'
    → r'.id ≡ r.id
unfolding moved
moved-id id from to r r' h = ground arith

wanted-moved :
    (id : SandboxId) (from to : SandboxState) (r : SandboxRecord)
    → wanted (moves id from to) r ≡ kept (moved id from to r)
unfolding wanted moved kept
wanted-moved id from to r = ground arith

module _ (codec : Codec) (store : SandboxStore) (keyed : Keyed store.records)
    (open_ : store.poisoned ≡ false) where
  insert-Performs :
      (r : SandboxRecord)
      → Performs codec store r.id
          (effect (inserts r) (find r.id store.records))
          (insert codec store r)
  unfolding insert wanted wanted_new
  insert-Performs r = elim (Option-cases (find r.id store.records)) [
    | inl e ↦ rw (open_lock store _ open_, e) (put-Performs codec store keyed r.id r refl)
    | inr (s, e) ↦ rw (open_lock store _ open_, e) rejected
  ]

  create-Performs :
      (id : SandboxId) (root : Text) (base : Option SharedBaseMount)
      (profile : Option SandboxResourceProfile)
      → Performs codec store id
          (effect (creates id root base profile) (find id store.records))
          (create_with_shared_base_and_profile codec store id root base profile)
  unfolding create_with_shared_base_and_profile wanted wanted_new
  create-Performs id root base profile = elim (Option-cases (find id store.records)) [
    | inl e ↦ rw (open_lock store _ open_, e) (put-Performs codec store keyed id _ refl)
    | inr (s, e) ↦ rw (open_lock store _ open_, e) rejected
  ]

  update-Performs :
      (r : SandboxRecord)
      → Performs codec store r.id
          (effect (updates r) (find r.id store.records))
          (update codec store r)
  unfolding update wanted wanted_new
  update-Performs r = elim (Option-cases (find r.id store.records)) [
    | inl e ↦ rw (open_lock store _ open_, e) rejected
    | inr (s, e) ↦ rw (open_lock store _ open_, e) (put-Performs codec store keyed r.id r refl)
  ]

  remove-Performs :
      (id : SandboxId)
      → Performs codec store id
          (effect (removes id) (find id store.records))
          (remove codec store id)
  unfolding remove wanted wanted_new
  remove-Performs id = elim (Option-cases (find id store.records)) [
    | inl e ↦ rw (open_lock store _ open_, e) rejected
    | inr (r, e) ↦ rw (open_lock store _ open_, e) (erased-Performs codec store keyed id r)
  ]

  -- `get_mut` finds no record.
  missing-Performs :
      (id : SandboxId) (change : SandboxRecord → Outcome SandboxRecord)
      → find id store.records ≡ none
      → Performs codec store id (refused (missing_sandbox id)) (changed codec store id change)
  unfolding changed
  missing-Performs id change e = rw (open_lock store _ open_, e) rejected

  -- The record that is found is changed, or the change is refused.
  changed-Performs :
      (id : SandboxId) (change : SandboxRecord → Outcome SandboxRecord) (r r' : SandboxRecord)
      → find id store.records ≡ some r
      → change r ≡ done r'
      → r'.id ≡ r.id
      → Performs codec store id (done (some r', r')) (changed codec store id change)
  unfolding changed
  changed-Performs id change r r' e f same =
      rw (open_lock store _ open_, e, f)
        (put-Performs codec store keyed id r' (sym (same ∙ find-Keyed id store.records r keyed e)))

  unchanged-Performs :
      (id : SandboxId) (change : SandboxRecord → Outcome SandboxRecord) (r : SandboxRecord)
      {error : ManagerError}
      → find id store.records ≡ some r
      → change r ≡ refused error
      → Performs codec store id (refused error) (changed codec store id change)
  unfolding changed
  unchanged-Performs id change r e f = rw (open_lock store _ open_, e, f) rejected

  change-Performs :
      (c : Command) (id : SandboxId) (change : SandboxRecord → Outcome SandboxRecord)
      → ((r r' : SandboxRecord) → change r ≡ done r' → r'.id ≡ r.id)
      → wanted_new c ≡ refused (missing_sandbox id)
      → ((r : SandboxRecord) → wanted c r ≡ kept (change r))
      → Performs codec store id (effect c (find id store.records)) (changed codec store id change)
  unfolding kept
  change-Performs c id change same new old = elim (Option-cases (find id store.records)) [
    | inl e ↦ rw (e, new) (missing-Performs id change e)
    | inr (r, e) ↦ rw (e, old r) (result r e (change r) refl)
  ]
    where
      result :
          (r : SandboxRecord)
          → find id store.records ≡ some r
          → (o : Outcome SandboxRecord) → change r ≡ o
          → Performs codec store id (kept o) (changed codec store id change)
      result r e (done r') f = changed-Performs id change r r' e f (same r r' f)
      result r e (refused error) f = unchanged-Performs id change r e f

  -- Every operation does at the id that it is about what its specification asks for, and no other id
  -- changes: an error of the specification leaves the whole store as it was, and a new content is in
  -- the map, which is then saved, or the write of the registry fails.
  pub run-Performs :
      (c : Command)
      → Performs codec store
          (target c)
          (effect c (find (target c) store.records))
          (run codec store c)
  unfolding run target set_state update_endpoints advance_activity_revision transition_state wanted
      wanted_new kept
  run-Performs (inserts r) = insert-Performs r
  run-Performs (updates r) = update-Performs r
  run-Performs (creates id root base profile) = create-Performs id root base profile
  run-Performs (removes id) = remove-Performs id
  run-Performs (advances id) =
      change-Performs (advances id) id counted_up counted_up-id refl (wanted-counted_up id)
  run-Performs (moves id from to) =
      change-Performs (moves id from to) id (moved id from to) (moved-id id from to) refl
        (wanted-moved id from to)
  run-Performs (sets_state id state) =
      change-Performs (sets_state id state) id (λ r. done (record r { state = state }))
        (λ r r' h. ground arith) refl (λ _. refl)
  run-Performs (sets_endpoints id daemon http) =
      change-Performs (sets_endpoints id daemon http) id
        (λ r. done (record r { daemon = daemon; daemon_http = http })) (λ r r' h. ground arith) refl
        (λ _. refl)
