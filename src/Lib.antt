-- ===== src/Lib.antt =====
-- Ephemeral sandbox: the layer stack of crates/sandbox-runtime/layerstack, which stores a workspace
-- as a stack of layers, and the sandbox manager of crates/sandbox-manager, which keeps the records of
-- the sandboxes.
--
-- A manifest lists layers, the newest first; publishing a changeset puts a new layer on top, a lease
-- pins the layers of a snapshot, releasing it collects what nothing names any more, and a squash
-- replaces runs of layers by one. A changeset that was made on an older manifest is merged by lines.
--
-- Merge (crates/sandbox-runtime/layerstack/src/stack/publish/merge.rs):
--   Lines: `eligible`, `split_lines`, `join_lines`; Diff: `diff` and `backtrack`; Regions: `regions`;
--   Origins: `OriginBuilder`; Loop: `three_way_merge`. A byte is a number, a line the list of its
--   bytes. Signed diagonals are shifted by `off`. The modules below these hold the proofs:
--   Diff/Backward and Forward follow a path and a round, Diff/Points, Moves and Search what a round keeps,
--   Diff/Scripts and Same the whole script, Loop/Contents the merge of whole contents.
-- Layers (crates/sandbox-runtime/layerstack/src):
--   Model: model/mod.rs and the names of layers; Leases: stack/lease/registry.rs;
--   Squash: stack/squash.rs and stack/lease/rewrite.rs on lists of layers; Stack: the operations on
--   the state, with Publish for stack/ops/publish.rs, Collect for stack/lease/cleanup.rs, Snapshot for
--   stack/mod.rs and stack/lease/rewrite.rs, Commit and Build for stack/squash.rs.
--   Changes: model/mod.rs, the changes of a layer and, in Path, their paths;
--   Planner: stack/publish/model.rs, route.rs and fingerprint.rs, with Plan for plan.rs, Contents
--   and Resolve for resolve.rs, and Validated for `publish_validated_changes`; View: the lookup of a
--   path in stack/projection/mod.rs, on layers as trees, with storage/whiteout.rs. What the planner
--   asks of the merged view, the ignore rules, SHA-256 and the file system is the record `World`.
-- Manager (crates/sandbox-manager/src):
--   Model: model.rs and error.rs; Disk: `write_snapshot` of store.rs; Store: `SandboxStore` of
--   store.rs, with Spec for its operations as changes of a function from ids to records; Lifecycle:
--   create_sandbox.rs and destroy_sandbox.rs of management/service/impls; Forward: router/forward.rs.
-- Prelude: shared helpers; Examples: runs at concrete inputs.
--
-- The state of a layer stack is the record `Stack`: the manifest, the folders, the sidecar files, the
-- lease registry and the substitutions. An operation takes the state to a result and a state, under
-- the writer lock; what the file system may refuse is the argument `Faults`. The digest and the size
-- of a changeset and the ids of new leases are arguments.
--
-- The state of the manager is the record `Machine`: the store with its map, its registry file and the
-- lock, and which sandboxes have a container. A write of the registry takes the next entry of `stops`,
-- which says where it is given up. JSON is the record `Codec`, the container runtime and the daemons
-- are the records `Ports` and `Client`.
--
-- Fuel: the merge loop takes one turn for each region and one more, and a chunk one for each region
-- left; `diff` has `off + 1` rounds, as in the source; an allocation has its 100 tries.
--
-- A layer in View is a tree; a symbolic link has a number for the place where
-- it stands, and what the kernel finds behind it is the parameter `Behind`.
--
-- Not modelled: writing the contents of layers, listing and projecting them, the flattening of a
-- squash, the rest of the manager (export, metrics, resource rings, dispatch of operations) and all of the
-- other crates. A version is a natural number: its overflow is not modelled.
pub mod Prelude
pub mod Merge
pub mod Layers
pub mod Manager
pub mod Examples
