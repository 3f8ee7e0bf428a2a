-- ===== src/Manager/Store/Trail.antt =====
-- crates/sandbox-manager/src/store.rs: sequences of operations on a store, each write of the registry
-- stopped anywhere or not at all.
use ephemeral_sandbox.Prelude.{
  ℕ, ap, Bool-cases, subst, arith, ◌≡◌, refl, sym, ◌∙◌, true, Option, some, List, ◌⊎◌, inl, inr,
  find,
}
use ephemeral_sandbox.Manager.Model.{
  SandboxId, SandboxRecord, ManagerError, store_poisoned, Outcome, done, refused,
}
use ephemeral_sandbox.Manager.Disk.{RegistryPath, Stop}
use ephemeral_sandbox.Manager.Store.{
  Codec, Records, SandboxStore, Reply, listing, load, locked, reconcile, insert, update, remove,
  create_with_shared_base_and_profile, advance_activity_revision, transition_state, set_state,
  update_endpoints, changed,
}
use ephemeral_sandbox.Manager.Store.Listing.{Keyed}
use ephemeral_sandbox.Manager.Store.Persisted.{
  Ends, written, unwritten, Saved, Unsaved, ReadsBack, load-Saved,
}
use ephemeral_sandbox.Manager.Store.Spec.{
  Command, inserts, updates, creates, removes, advances, moves, sets_state, sets_endpoints, run,
  target, Performs, rejected, performed, run-Performs,
}
use ephemeral_sandbox.Manager.Store.Reconciled.{reconcile-Ends}

-- One operation that changes the store: a command, or a reconciliation.
pub data Step (codec : Codec) (store : SandboxStore) : SandboxStore → Type 0 where
  command : (c : Command) → Step codec store (run codec store c).0
  reconciled :
      (recovered : List SandboxRecord) → Step codec store (reconcile codec store recovered).0

pub data Steps (codec : Codec) : SandboxStore → SandboxStore → Type 0 where
  start : {store : SandboxStore} → Steps codec store store
  next :
      {store mid after : SandboxStore}
      → Steps codec store mid
      → Step codec mid after
      → Steps codec store after

-- A store that the sequence passed, its first and its last among them.
abbrev pub Visits :
    {codec : Codec} {first last : SandboxStore} → Steps codec first last → SandboxStore → Type 0
Visits (start {store}) mid = mid ≡ store
Visits (next {after = last} steps step) mid = (mid ≡ last) ⊎ Visits steps mid

-- A registry that reads as it did at first, or as the list of the records of a store that was passed.
abbrev pub Held :
    {codec : Codec} {first last : SandboxStore}
    → Steps codec first last
    → RegistryPath
    → Option (List ℕ)
    → Type 0
Held {codec} {first} {last} steps path held =
    (held ≡ find path.file_name first.disk)
    ⊎ ((mid : SandboxStore) × Visits steps mid
        × (bytes : List ℕ) × (codec.to_bytes (listing mid.records) ≡ some bytes)
        × (held ≡ some bytes))

abbrev pub Passed : {codec : Codec} {first last : SandboxStore} → Steps codec first last → Type 0
Passed {codec} {first} {last} steps =
    (path : RegistryPath)
    → last.registry_path ≡ some path
    → Held steps path (find path.file_name last.disk)

-- What an operation leaves, whatever it returns.
record Leaves (codec : Codec) (store after : SandboxStore) : Type 0 where
  registry : Saved codec after ⊎ Unsaved store after
  path : after.registry_path ≡ store.registry_path
  keyed : Keyed after.records

unmoved : (codec : Codec) (store : SandboxStore) → Keyed store.records → Leaves codec store store
unmoved codec store h = record { registry = inr (λ _ _. refl); path = refl; keyed = h }

Ends-Leaves :
    (codec : Codec) (store : SandboxStore) (m : Records) {A : Type 0} (a : A) {reply : Reply A}
    → Keyed m
    → Ends codec (record store { records = m }) a reply
    → Leaves codec store reply.0
Ends-Leaves codec store m a h (written saved same path lock) = record {
  registry = inl saved;
  path = path;
  keyed = rw same h;
}
Ends-Leaves codec store m a h (unwritten unsaved same path lock) = record {
  registry = inr unsaved;
  path = path;
  keyed = rw same h;
}

Performs-Leaves :
    (codec : Codec) (store : SandboxStore) (id : SandboxId)
    {o : Outcome (Option SandboxRecord × SandboxRecord)} {reply : Reply SandboxRecord}
    → Keyed store.records
    → Performs codec store id o reply
    → Leaves codec store reply.0
Performs-Leaves codec store id h rejected = unmoved codec store h
Performs-Leaves codec store id h (performed {r} m found keyed ends) =
    Ends-Leaves codec store m r keyed ends

-- A poisoned lock refuses every operation.
shut :
    (store : SandboxStore) {A : Type 0} (reply : Reply A)
    → store.poisoned ≡ true
    → locked store reply ≡ (store, refused store_poisoned)
unfolding locked
shut store reply h = ground arith

run_poisoned :
    (codec : Codec) (store : SandboxStore) (c : Command)
    → store.poisoned ≡ true
    → run codec store c ≡ (store, refused store_poisoned)
unfolding run insert update remove create_with_shared_base_and_profile advance_activity_revision
    transition_state set_state update_endpoints changed
run_poisoned codec store (inserts r) h = shut store _ h
run_poisoned codec store (updates r) h = shut store _ h
run_poisoned codec store (creates _ _ _ _) h = shut store _ h
run_poisoned codec store (removes _) h = shut store _ h
run_poisoned codec store (advances _) h = shut store _ h
run_poisoned codec store (moves _ _ _) h = shut store _ h
run_poisoned codec store (sets_state _ _) h = shut store _ h
run_poisoned codec store (sets_endpoints _ _ _) h = shut store _ h

Step-Leaves :
    (codec : Codec) (store after : SandboxStore)
    → Keyed store.records
    → Step codec store after
    → Leaves codec store after
unfolding reconcile
Step-Leaves codec store _ h (command c) = elim (Bool-cases store.poisoned) [
  | inl p ↦
      subst (Leaves codec store) (sym (ap (λ reply. reply.0) (run_poisoned codec store c p)))
        (unmoved codec store h)
  | inr p ↦ Performs-Leaves codec store (target c) h (run-Performs codec store h p c)
]
Step-Leaves codec store _ h (reconciled recovered) = elim (Bool-cases store.poisoned) [
  | inl p ↦
      subst (Leaves codec store) (sym (ap (λ reply. reply.0) (shut store _ p)))
        (unmoved codec store h)
  | inr p ↦
      let (m, lost, found, keyed, up, told, ends) = reconcile-Ends codec store recovered h p in
      Ends-Leaves codec store m lost keyed ends
]

-- In any sequence of operations, wherever the writes of the registry stop, every record stays under
-- its id, and the registry of the store at the end is the one at the start or lists the records of
-- a store that the sequence passed.
pub Steps-Passed :
    (codec : Codec) (first last : SandboxStore)
    → Keyed first.records
    → (steps : Steps codec first last) → Keyed last.records × Passed steps
Steps-Passed codec first last h start = (h, λ _ _. inl refl)
Steps-Passed codec first last h (next {mid} steps step) =
    let (keyed, passed) = Steps-Passed codec first mid h steps in
    let leaves = Step-Leaves codec mid last keyed step in
    (
      leaves.keyed,
      λ path e.
          elim leaves.registry
            as (λ _. Held (next steps step) path (find path.file_name last.disk)) [
              | inl saved ↦
                  let (bytes, to, on_disk) = saved path e in
                  inr (last, inl refl, bytes, to, on_disk)
              | inr unsaved ↦
                  let e' = sym leaves.path ∙ e in
                  subst (Held (next steps step) path) (sym (unsaved path e'))
                    (still steps step path _ (passed path e'))
            ],
    )
  where
    still :
        {first mid last : SandboxStore} (steps : Steps codec first mid) (step : Step codec mid last)
        (path : RegistryPath) (held : Option (List ℕ))
        → Held steps path held
        → Held (next steps step) path held
    still steps step path held (inl same) = inl same
    still steps step path held (inr (mid, seen, bytes, to, on_disk)) =
        inr (mid, inr seen, bytes, to, on_disk)

succeeded :
    (codec : Codec) (store : SandboxStore) (id : SandboxId)
    {o : Outcome (Option SandboxRecord × SandboxRecord)} {reply : Reply SandboxRecord}
    {after : SandboxStore} {r : SandboxRecord}
    → reply ≡ (after, done r)
    → Performs codec store id o reply
    → Saved codec after × Keyed after.records × (after.registry_path ≡ store.registry_path)
succeeded codec store id e rejected = absurd (cc)
succeeded codec store id e (performed m found keyed ends) = ended e ends
  where
    ended :
        {a : SandboxRecord} {reply : Reply SandboxRecord} {after : SandboxStore} {r : SandboxRecord}
        → reply ≡ (after, done r)
        → Ends codec (record store { records = m }) a reply
        → Saved codec after × Keyed after.records × (after.registry_path ≡ store.registry_path)
    ended {after} e (written {after = end} saved same path lock) =
        let at : end ≡ after = ap (λ p. p.0) e in
        subst (λ s. Saved codec s × Keyed s.records × (s.registry_path ≡ store.registry_path)) at
          (saved, rw same keyed, path)
    ended e (unwritten unsaved same path lock) = absurd (cc)

-- An operation that succeeds on an open store leaves a registry from which a new store gets the same
-- record under each id.
pub run-loads :
    (codec : Codec) (store after : SandboxStore) (c : Command) (r : SandboxRecord)
    (path : RegistryPath) (stops : List (Option Stop))
    → ReadsBack codec
    → Keyed store.records
    → store.registry_path ≡ some path
    → run codec store c ≡ (after, done r)
    → (loaded : SandboxStore) × (load codec path (some after.disk) stops ≡ done loaded)
      × ((id : SandboxId) → find id loaded.records ≡ find id after.records)
run-loads codec store after c r path stops back h at e = elim (Bool-cases store.poisoned) [
  | inl p ↦ absurd (done-refused (sym e ∙ run_poisoned codec store c p))
  | inr p ↦
      let (saved, keyed, path_same) =
        succeeded codec store (target c) e (run-Performs codec store h p c) in
      let (loaded, load_eq, loaded_keyed, found) =
        load-Saved codec after path stops back keyed saved (path_same ∙ at) in
      (loaded, load_eq, found)
]
  where
    done-refused :
        {error : ManagerError}
        → ◌≡◌ {A = Reply SandboxRecord} (after, done r) (store, refused error)
        → ⊥
    done-refused h = cc
