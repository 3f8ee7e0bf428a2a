-- ===== src/Manager/Lifecycle/Effects.antt =====
-- crates/sandbox-manager/src/store.rs, as the handlers of the manager use it: what one operation
-- leaves at its id, and that it keeps all else.
use ephemeral_sandbox.Prelude.{
  ◌≡◌, refl, ◌∙◌, subst, false, inl, inr, Option, Option-cases, none, text_eq, text_eq_refl, find,
  if◌then◌else◌,
}
use ephemeral_sandbox.Manager.Model.{
  SandboxId, SandboxRecord, RegistryAction, registry_persist_failed, ManagerError, missing_sandbox,
  Outcome, done, refused,
}
use ephemeral_sandbox.Manager.Store.{Codec, Records, SandboxStore, Reply, remove}
use ephemeral_sandbox.Manager.Store.Listing.{Keyed}
use ephemeral_sandbox.Manager.Store.Persisted.{written, unwritten}
use ephemeral_sandbox.Manager.Store.Spec.{
  Command, removes, run, target, effect, wanted, wanted_new, Performs, rejected, performed,
  run-Performs,
}

-- All ids but one hold what they held, and the lock is as it was.
pub record Kept (id : SandboxId) (before after : SandboxStore) : Type 0 where
  pub others : (j : SandboxId) → text_eq id j ≡ false → find j after.records ≡ find j before.records
  pub keyed : Keyed after.records
  pub lock : after.poisoned ≡ before.poisoned

pub Kept-refl : (id : SandboxId) (store : SandboxStore) → Keyed store.records → Kept id store store
Kept-refl id store h = record { others = λ _ _. refl; keyed = h; lock = refl }

pub Kept-trans : (id : SandboxId) (a b c : SandboxStore) → Kept id a b → Kept id b c → Kept id a c
Kept-trans id a b c h k = record {
  others = λ j ne. k.others j ne ∙ h.others j ne;
  keyed = k.keyed;
  lock = k.lock ∙ h.lock;
}

-- A command that its specification allows: the new content is there, and the reply is the record, or
-- the registry could not be written.
pub data Replies (r : SandboxRecord) : Outcome SandboxRecord → Type 0 where
  accepted : Replies r (done r)
  unsaved : (action : RegistryAction) → Replies r (refused (registry_persist_failed action))

pub record Settled (store : SandboxStore) (id : SandboxId) (content : Option SandboxRecord)
    (r : SandboxRecord) (reply : Reply SandboxRecord) : Type 0 where
  pub holds : find id reply.0.records ≡ content
  pub kept : Kept id store reply.0
  pub replies : Replies r reply.1

module _ (codec : Codec) (store : SandboxStore) where
  at_one :
      (id : SandboxId) (content : Option SandboxRecord) (m : Records) (after : SandboxStore)
      → ((j : SandboxId) → find j m ≡ (if text_eq id j then content else find j store.records))
      → Keyed m
      → after.records ≡ m
      → after.poisoned ≡ store.poisoned
      → (find id after.records ≡ content) × Kept id store after
  at_one id content m after found keyed same lock = (
    rw same (found id ∙ rw (text_eq_refl id)),
    record { others = λ j ne. rw same (found j ∙ rw ne); keyed = rw same keyed; lock = lock },
  )

  Performs-Settled :
      (id : SandboxId) (content : Option SandboxRecord) (r : SandboxRecord)
      {reply : Reply SandboxRecord}
      → Performs codec store id (done (content, r)) reply
      → Settled store id content r reply
  Performs-Settled id content r (performed m found keyed (written {after} _ same _ lock)) =
      let at = at_one id content m after found keyed same lock in
      record { holds = at.0; kept = at.1; replies = accepted }
  Performs-Settled id content r
        (performed m found keyed (unwritten {after} {action} _ same _ lock)) =
      let at = at_one id content m after found keyed same lock in
      record { holds = at.0; kept = at.1; replies = unsaved action }

  -- A command that its specification allows.
  pub run-Settled :
      (c : Command) (content : Option SandboxRecord) (r : SandboxRecord)
      → Keyed store.records
      → store.poisoned ≡ false
      → effect c (find (target c) store.records) ≡ done (content, r)
      → Settled store (target c) content r (run codec store c)
  run-Settled c content r keyed open_ e = Performs-Settled (target c) content r (
      subst (λ o. Performs codec store (target c) o (run codec store c)) e
        (run-Performs codec store keyed open_ c))

  Performs-refused :
      (id : SandboxId) (e : ManagerError) {reply : Reply SandboxRecord}
      → Performs codec store id (refused e) reply
      → reply ≡ (store, refused e)
  Performs-refused id e rejected = refl

  -- A command that its specification refuses.
  pub run_refused :
      (c : Command) (e : ManagerError)
      → Keyed store.records
      → store.poisoned ≡ false
      → effect c (find (target c) store.records) ≡ refused e
      → run codec store c ≡ (store, refused e)
  run_refused c e keyed open_ h = Performs-refused (target c) e (
      subst (λ o. Performs codec store (target c) o (run codec store c)) h
        (run-Performs codec store keyed open_ c))

  -- After a removal, successful or not, the id holds nothing.
  pub removed :
      (id : SandboxId)
      → Keyed store.records
      → store.poisoned ≡ false
      → (find id (remove codec store id).0.records ≡ none) × Kept id store (remove codec store id).0
  unfolding run target wanted wanted_new
  removed id keyed open_ = elim (Option-cases (find id store.records)) [
    | inl e ↦
        let same = run_refused (removes id) (missing_sandbox id) keyed open_ (rw e) in
        rw same (e, Kept-refl id store keyed)
    | inr (r, e) ↦ let s = run-Settled (removes id) none r keyed open_ (rw e) in (s.holds, s.kept)
  ]
