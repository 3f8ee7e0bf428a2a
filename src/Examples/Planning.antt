-- ===== src/Examples/Planning.antt =====
-- Validated changes to one file, and changesets.
use ephemeral_sandbox.Prelude.{
  some, ℕ, ◌≡◌, refl, min, false, none, List, [], ◌∷◌, All, text, text_eq, ◌==◌, if◌then◌else◌,
  find, inserted,
}
use ephemeral_sandbox.Merge.Lines.{eligible, split_lines, join_lines}
use ephemeral_sandbox.Merge.Diff.{diff, bytes_eq}
use ephemeral_sandbox.Merge.Regions.{regions}
use ephemeral_sandbox.Merge.Origins.{active, command, push_active, push_command}
use ephemeral_sandbox.Merge.Loop.{three_way_merge}
use ephemeral_sandbox.Layers.Model.{Manifest}
use ephemeral_sandbox.Layers.Changes.{
  LayerChange, write, delete, change_path, lookup, aggregate_layer_changes, published_layer_bytes,
  u64_max,
}
use ephemeral_sandbox.Layers.Changes.Aggregate.{
  last_with, lookup-aggregate_layer_changes, exact_bytes, published_layer_bytes_exact,
}
use ephemeral_sandbox.Layers.Changes.Path.{parse, parts_from, IsPart, parse-IsPart}
use ephemeral_sandbox.Layers.Planner.{
  World, pass, MergedEntry, file, source, file_content, PublishValidatedChangesRequest,
  ResolvedChangeset,
}
use ephemeral_sandbox.Layers.Planner.Plan.{PublishPlan, explicit_change, plan_publish}
use ephemeral_sandbox.Layers.Planner.Resolve.{resolve_publish_changes}
use ephemeral_sandbox.Layers.Planner.Expects.{Expects}
use ephemeral_sandbox.Layers.Planner.Settled.{Settled, resolve_publish_changes-Settled}
use ephemeral_sandbox.Layers.Planner.Unmoved.{Readable, resolve_publish_changes_unmoved}

abbrev two_changes : List LayerChange
two_changes = write (text "a") (1 ∷ []) ∷ delete (text "b") ∷ write (text "a") (2 ∷ 3 ∷ []) ∷ []

lookup-aggregate_layer_changes_example :
    lookup change_path (text "a") (aggregate_layer_changes two_changes)
    ≡ last_with change_path (text "a") two_changes none
lookup-aggregate_layer_changes_example = lookup-aggregate_layer_changes (text "a") two_changes

published_layer_bytes_exact_example :
    published_layer_bytes two_changes ≡ min (exact_bytes two_changes) u64_max
published_layer_bytes_exact_example = published_layer_bytes_exact two_changes

-- A space that comes after a skipped part is kept, and trimmed when the result is parsed again.
parse_test : parse (text "./ a//b/.") ≡ some (text " a/b")
unfolding parse
parse_test = refl

parse_again_test : parse (text " a/b") ≡ some (text "a/b")
unfolding parse
parse_again_test = refl

parse-IsPart_example : All IsPart (parts_from [] (text " a/b"))
parse-IsPart_example = parse-IsPart (text "./ a//b/.") (text " a/b") parse_test

abbrev manifest_at : ℕ → Manifest
manifest_at version = record { version = version; layers = []; schema_version = 1 }

-- The file has three lines, and the first one changes from version 1 to version 2.
abbrev entry_at : Manifest → MergedEntry
entry_at m =
    file
      (if m.version == 1
        then b'1' ∷ 10 ∷ b'2' ∷ 10 ∷ b'3' ∷ 10 ∷ []
        else b'x' ∷ 10 ∷ b'2' ∷ 10 ∷ b'3' ∷ 10 ∷ [])
      false

abbrev small_world : World
small_world = record {
  read_entry = λ _ m. pass (entry_at m);
  read_entry_limited = λ _ m. pass (entry_at m);
  visible_descendants = λ _ _. pass [];
  is_ignored = λ _ _ _. pass false;
  digest = λ bytes. bytes;
  manifest_root_hash = λ _. text "hash";
  read_source = λ _. pass [];
}

small-Readable : Readable small_world
small-Readable = record {
  entries = λ p m. (entry_at m, refl);
  limited = λ p m. (entry_at m, refl);
  sources = λ from. ([], refl);
}

-- The last line is written anew on version 1.
abbrev last_line_written : LayerChange
last_line_written = write (text "a") (b'1' ∷ 10 ∷ b'2' ∷ 10 ∷ b'y' ∷ 10 ∷ [])

abbrev small_request : PublishValidatedChangesRequest
small_request = record {
  base = record {
    manifest = manifest_at 1;
    revision = record { manifest_version = 1; root_hash = text "hash"; layer_count = 0 };
  };
  changes = last_line_written ∷ [];
  protected_drops = [];
}

abbrev small_plan : PublishPlan
small_plan = record {
  accepted = record { change = last_line_written; route = source } ∷ [];
  source_validations =
      record {
        path = text "a";
        expected = file_content (b'1' ∷ 10 ∷ b'2' ∷ 10 ∷ b'3' ∷ 10 ∷ []) false;
        provenance = explicit_change;
      }
      ∷ [];
  route_summary = record { source_count = 1; ignored_count = 0 };
}

small_planned : plan_publish small_world small_request ≡ pass small_plan
unfolding plan_publish text_eq change_path
small_planned = refl

resolve_publish_changes_unmoved_example :
    (resolved : ResolvedChangeset) × (resolve_publish_changes small_world
        (manifest_at 1)
        small_request
        small_plan
      ≡ pass resolved)
    × (resolved.changes ≡ last_line_written ∷ [])
resolve_publish_changes_unmoved_example =
    resolve_publish_changes_unmoved small_world small_request small_plan small-Readable
      small_planned

-- Both changes, with the origins of the lines.
abbrev small_resolved : ResolvedChangeset
small_resolved = record {
  changes = write (text "a") (b'x' ∷ 10 ∷ b'2' ∷ 10 ∷ b'y' ∷ 10 ∷ []) ∷ [];
  origin =
      (
        text "a",
        (record { start = 1; len = 2 }, active 0) ∷ (record { start = 3; len = 1 }, command) ∷ [],
      )
      ∷ [];
}

small_merged :
    resolve_publish_changes small_world (manifest_at 2) small_request small_plan
    ≡ pass small_resolved
unfolding resolve_publish_changes text_eq three_way_merge eligible split_lines join_lines diff
    bytes_eq regions push_active push_command find inserted change_path
small_merged = refl

resolve_publish_changes-Settled_example :
    All
      (λ v.
        Expects small_world (manifest_at 1) v
        × Settled small_world
            (manifest_at 1)
            (manifest_at 2)
            small_plan.accepted
            small_resolved.changes
            v)
      small_plan.source_validations
resolve_publish_changes-Settled_example =
    resolve_publish_changes-Settled small_world (manifest_at 2) small_request small_plan
      small_resolved small_planned small_merged
