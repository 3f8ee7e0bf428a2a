-- ===== src/Layers/Planner/Resolve.antt =====
-- stack/publish/resolve.rs: `resolve_publish_changes`.
use ephemeral_sandbox.Prelude.{
  Bool, true, false, ◌&&◌, ◌||◌, not, Option, none, some, List, [], ◌∷◌, ◌++◌, Text, length, ltb,
  if◌then◌else◌, find, inserted,
}
use ephemeral_sandbox.Merge.Origins.{LineRange, Origin}
use ephemeral_sandbox.Layers.Model.{Manifest}
use ephemeral_sandbox.Layers.Stack.{manifest_eq}
use ephemeral_sandbox.Layers.Changes.{
  LayerChange, LayerPath, write, change_path, put, put_all, lookup,
}
use ephemeral_sandbox.Layers.Planner.{
  World, Checked, pass, fail, and_then, rejected, source_conflict, opaque_dir_expansion_limit,
  PublishValidatedChangesRequest, ResolvedChangeset, ContentFingerprint, absent_content,
  file_content, symlink_content, directory_content, source, ignored, is_source, content_fingerprint,
  fingerprint_eq, opaque_dir_expansion_limit_count,
}
use ephemeral_sandbox.Layers.Planner.Plan.{
  SourceValidation, SourceValidationProvenance, explicit_change, opaque_root, AcceptedChange,
  PublishPlan,
}
use ephemeral_sandbox.Layers.Planner.Contents.{
  MergedPath, is_file_write, is_directory, is_opaque_dir, replaces_directory, read_command_bytes,
  merge_path, clean_origin,
}

-- `effective_changes`: of the accepted changes at one path the last, in the order of the paths.
abbrev pub accepted_path : AcceptedChange → LayerPath
accepted_path accepted = change_path accepted.change

unfoldable pub effective_changes : List AcceptedChange → List AcceptedChange
unfolding put_all
effective_changes accepted = put_all accepted_path accepted []

-- An opaque directory's validation counts only if that change is the one that wins at its root.
unfoldable pub still_counts : SourceValidationProvenance → List AcceptedChange → Bool
unfolding lookup is_source is_opaque_dir
still_counts explicit_change effective = true
still_counts (opaque_root root) effective = elim (lookup accepted_path root effective) [
  | none ↦ false
  | some accepted ↦ is_source accepted.route && is_opaque_dir accepted.change
]

unfoldable pub is_absent : ContentFingerprint → Bool
is_absent absent_content = true
is_absent (file_content _ _) = false
is_absent (symlink_content _) = false
is_absent directory_content = false

unfoldable pub is_directory_content : ContentFingerprint → Bool
is_directory_content directory_content = true
is_directory_content absent_content = false
is_directory_content (file_content _ _) = false
is_directory_content (symlink_content _) = false

-- `compatible_directory_create`.
unfoldable pub same_create : Option AcceptedChange → ContentFingerprint → ContentFingerprint → Bool
unfolding is_source is_directory is_absent is_directory_content
same_create none expected actual = false
same_create (some accepted) expected actual =
    is_source accepted.route
    && is_directory accepted.change
    && is_absent expected
    && is_directory_content actual

-- A path whose content has moved: merged if its change is a write of a source file.
unfoldable pub settle_moved :
    World
    → Manifest
    → Manifest
    → SourceValidation
    → ContentFingerprint
    → Option AcceptedChange
    → Checked MergedPath
unfolding and_then is_source is_file_write read_command_bytes merge_path
settle_moved w base active v actual none =
    fail (
      rejected (source_conflict (record { path = v.path; expected = v.expected; actual = actual })))
settle_moved w base active v actual (some accepted) =
    if not (is_source accepted.route) || not (is_file_write accepted.change)
    then fail (
        rejected
          (source_conflict (record { path = v.path; expected = v.expected; actual = actual })))
    else and_then (read_command_bytes w accepted.change) (λ command.
      and_then (merge_path w base active v.path command) (λ result. elim result [
        | some merged ↦ pass merged
        | none ↦ fail (
            rejected
              (source_conflict (record { path = v.path; expected = v.expected; actual = actual })))
      ]))

-- The loop over the validations; the merged paths so far.
unfoldable pub validate_sources :
    World
    → Manifest
    → Manifest
    → List AcceptedChange
    → List (Text × MergedPath)
    → List SourceValidation
    → Checked (List (Text × MergedPath))
unfolding and_then still_counts content_fingerprint fingerprint_eq same_create settle_moved lookup
    inserted
validate_sources w base active effective merged [] = pass merged
validate_sources w base active effective merged (v ∷ rest) =
    let skip = validate_sources w base active effective merged rest in
    if not (still_counts v.provenance effective)
    then skip
    else and_then (content_fingerprint w active v.path) (λ actual.
      if fingerprint_eq actual v.expected
        || same_create (lookup accepted_path v.path effective) v.expected actual
      then skip
      else and_then (settle_moved w base active v actual (lookup accepted_path v.path effective))
          (λ resolved.
            validate_sources w base active effective (inserted v.path resolved merged) rest))

-- `descendants.insert`, with its check, for all of a list.
unfoldable pub collect : LayerPath → List LayerPath → List LayerPath → Checked (List LayerPath)
unfolding put
collect path set [] = pass set
collect path set (d ∷ ds) =
    let rest = collect path (put (λ p. p) d set) ds in
    if ltb opaque_dir_expansion_limit_count (length (put (λ (p : LayerPath). p) d set))
    then fail (rejected (opaque_dir_expansion_limit path))
    else rest

unfoldable pub same_contents : World → Manifest → Manifest → List LayerPath → Checked (Unit {0})
unfolding and_then content_fingerprint fingerprint_eq
same_contents w base active [] = pass tt
same_contents w base active (d ∷ ds) =
    let rest = same_contents w base active ds in
    and_then (content_fingerprint w base d) (λ expected.
      and_then (content_fingerprint w active d) (λ actual.
        if fingerprint_eq actual expected
        then rest
        else fail (
            rejected
              (source_conflict (record { path = d; expected = expected; actual = actual })))))

-- One replaced directory: nothing below it has moved.
unfoldable pub validate_directory : World → Manifest → Manifest → LayerPath → Checked (Unit {0})
unfolding and_then collect same_contents
validate_directory w base active path =
    and_then (w.visible_descendants path base) (λ base_descendants.
      and_then (w.visible_descendants path active) (λ active_descendants.
        if ltb opaque_dir_expansion_limit_count (length base_descendants)
          || ltb opaque_dir_expansion_limit_count (length active_descendants)
        then fail (rejected (opaque_dir_expansion_limit path))
        else and_then (collect path [] (base_descendants ++ active_descendants))
            (λ descendants. same_contents w base active descendants)))

unfoldable pub validate_structure :
    World → Manifest → Manifest → List AcceptedChange → Checked (Unit {0})
unfolding and_then is_source replaces_directory content_fingerprint is_directory_content
    validate_directory
validate_structure w base active [] = pass tt
validate_structure w base active (accepted ∷ rest) =
    let later = validate_structure w base active rest in
    if not (is_source accepted.route) || not (replaces_directory accepted.change)
    then later
    else and_then (content_fingerprint w base (accepted_path accepted)) (λ content.
      if not (is_directory_content content)
      then later
      else and_then (validate_directory w base active (accepted_path accepted)) (λ _. later))

-- `validate_structural_source_conflicts`.
unfoldable pub validate_structural :
    World → Manifest → Manifest → List AcceptedChange → Checked (Unit {0})
unfolding manifest_eq validate_structure
validate_structural w base active effective =
    if manifest_eq base active then pass tt else validate_structure w base active effective

unfoldable pub resolve_source_conflicts :
    World → Manifest → Manifest → PublishPlan → Checked (List (Text × MergedPath))
unfolding and_then effective_changes validate_sources validate_structural
resolve_source_conflicts w base active plan =
    let effective = effective_changes plan.accepted in
    and_then (validate_sources w base active effective [] plan.source_validations)
      (λ merged. and_then (validate_structural w base active effective) (λ _. pass merged))

-- What is committed for one accepted change, and its origin if it is a file.
unfoldable pub resolve_change :
    World
    → Manifest
    → List (Text × MergedPath)
    → AcceptedChange
    → Checked (LayerChange × List (LayerPath × List (LineRange × Origin)))
unfolding and_then is_file_write find read_command_bytes clean_origin
resolve_change w base merged accepted =
    let path = accepted_path accepted in
    if not (is_file_write accepted.change)
    then pass (accepted.change, [])
    else elim accepted.route [
      | ignored ↦ pass (accepted.change, (path, []) ∷ [])
      | source ↦ elim (find path merged) [
        | some resolved ↦ pass (write path resolved.bytes, (path, resolved.origin) ∷ [])
        | none ↦ and_then (read_command_bytes w accepted.change) (λ command.
            and_then (clean_origin w base path command)
              (λ ranges. pass (accepted.change, (path, ranges) ∷ [])))
      ]
    ]

unfoldable pub resolve_changes :
    World → Manifest → List (Text × MergedPath) → List AcceptedChange → Checked ResolvedChangeset
unfolding and_then resolve_change
resolve_changes w base merged [] = pass (record { changes = []; origin = [] })
resolve_changes w base merged (accepted ∷ rest) =
    let later = resolve_changes w base merged rest in
    and_then (resolve_change w base merged accepted) (λ first. and_then later (λ resolved.
      pass (record { changes = first.0 ∷ resolved.changes; origin = first.1 ++ resolved.origin })))

unfoldable pub resolve_publish_changes :
    World → Manifest → PublishValidatedChangesRequest → PublishPlan → Checked ResolvedChangeset
unfolding and_then resolve_source_conflicts resolve_changes
resolve_publish_changes w active request plan =
    and_then (resolve_source_conflicts w request.base.manifest active plan)
      (λ merged. resolve_changes w request.base.manifest merged plan.accepted)
