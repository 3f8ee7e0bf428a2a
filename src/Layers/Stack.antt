-- ===== src/Layers/Stack.antt =====
-- stack/mod.rs, stack/ops/publish.rs, stack/lease/cleanup.rs, stack/squash.rs and
-- stack/lease/rewrite.rs: the operations of `LayerStack` on the storage root and the lease registry.
-- Each operation runs under the writer lock, so it is one step; a squash is three. What the file
-- system may refuse is an argument, `Faults`. The digest of a changeset, its size and a new lease's
-- id are arguments too. `staging` and `dirs` are the folders under the storage root, `dirs` by the
-- path that a manifest names.
pub mod Publish
pub mod Collect
pub mod Snapshot
pub mod Commit
pub mod Build
pub mod Invariant
use ephemeral_sandbox.Prelude.{
  ℕ, suc, ◌+◌, ◌≡◌, refl, Bool, true, false, ◌&&◌, Option, none, some, List, [], ◌∷◌, ◌==◌, Text,
  text, text_eq,
}
use ephemeral_sandbox.Layers.Model.{LayerRef, Manifest, layers_eq}
use ephemeral_sandbox.Layers.Leases.{LeaseRegistry}
use ephemeral_sandbox.Layers.Squash.{SubstitutionRecord}

pub record Stack : Type 0 where
  pub manifest : Manifest
  pub dirs : List Text
  pub staging : List Text
  pub digests : List (Text × Text)
  pub sizes : List (Text × ℕ)
  pub leases : LeaseRegistry
  pub substitutions : List SubstitutionRecord
  pub next_unique : ℕ

pub data StackError : Type 0 where
  manifest_conflict : ℕ → ℕ → StackError
  invalid_lease_owner layer_id_allocation unsupported_schema bad_layer_ref run_broken : StackError
  storage io : StackError

pub data Result {ℓ} (A : Type ℓ) : Type ℓ where
  ok : A → Result A
  err : StackError → Result A

-- The steps of a publish or a commit that the file system refuses: a write is refused before its
-- rename, and the sync of its folder after it. The removals with which a failed publish or commit
-- takes its own folders back are not refused. Then how many renames of a commit it
-- allows if not all, the layer paths that it does not remove, the ids whose sidecars it does not
-- remove, how many entries of `staging` it removes if
-- not all, and the ids of the blocks whose flattening fails.
pub record Faults : Type 0 where
  pub head_digest : Bool
  pub failpoint : Bool
  pub create_staging : Bool
  pub write_layer : Bool
  pub rename : Bool
  pub rename_stops : Option ℕ
  pub fsync_parent : Bool
  pub write_digest : Bool
  pub sync_digest : Bool
  pub sync_root : Bool
  pub write_manifest : Bool
  pub sync_manifest : Bool
  pub write_bytes : Bool
  pub keeps : Text → Bool
  pub keeps_digest : Text → Bool
  pub keeps_bytes : Text → Bool
  pub staging_stops : Option ℕ
  pub flatten_fails : Text → Bool

abbrev pub no_faults : Faults
no_faults = record {
  head_digest = false;
  failpoint = false;
  create_staging = false;
  write_layer = false;
  rename = false;
  rename_stops = none;
  fsync_parent = false;
  write_digest = false;
  sync_digest = false;
  sync_root = false;
  write_manifest = false;
  sync_manifest = false;
  write_bytes = false;
  keeps = λ _. false;
  keeps_digest = λ _. false;
  keeps_bytes = λ _. false;
  staging_stops = none;
  flatten_fails = λ _. false;
}

unfoldable pub manifest_eq : Manifest → Manifest → Bool
unfolding layers_eq
manifest_eq m n =
    m.version == n.version && layers_eq m.layers n.layers && m.schema_version == n.schema_version
