-- ===== src/Layers/Planner/Plan.antt =====
-- stack/publish/plan.rs and opaque_dir.rs: `plan_publish`. Each loop returns what it pushes, so that
-- the first error is the one that is returned.
use ephemeral_sandbox.Prelude.{
  ◌+◌, Bool, true, false, ◌&&◌, not, Option, none, some, List, [], ◌∷◌, ◌++◌, text_eq, length, ◌==◌,
  ltb, if◌then◌else◌,
}
use ephemeral_sandbox.Layers.Model.{Manifest}
use ephemeral_sandbox.Layers.Changes.{
  LayerChange, LayerPath, write, write_file, delete, symlink, directory, opaque_dir, change_path,
}
use ephemeral_sandbox.Layers.Planner.{
  World, Checked, pass, fail, and_then, rejected, invalid_base_revision, route_preparation_failed,
  protected_path, protected_drop, opaque_dir_protected_descendant, opaque_dir_mixed_routes,
  opaque_dir_expansion_limit, PublishValidatedChangesRequest, PublishBase, LayerProtectedDrop,
  unsupported_special_file, invalid_layer_path, command_scratch_path, PublishRouteSummary,
  ContentFingerprint, MergedEntry, absent, file, link, folder, RouteKind, source, ignored,
  is_source, is_protected, content_fingerprint, opaque_dir_expansion_limit_count,
}

pub data SourceValidationProvenance : Type 0 where
  explicit_change : SourceValidationProvenance
  opaque_root : LayerPath → SourceValidationProvenance

pub record SourceValidation : Type 0 where
  pub path : LayerPath
  pub expected : ContentFingerprint
  pub provenance : SourceValidationProvenance

pub record AcceptedChange : Type 0 where
  pub change : LayerChange
  pub route : RouteKind

pub record PublishPlan : Type 0 where
  pub accepted : List AcceptedChange
  pub source_validations : List SourceValidation
  pub route_summary : PublishRouteSummary

-- `validate_base_revision`.
unfoldable pub revision_ok : World → PublishBase → Bool
unfolding text_eq
revision_ok w base =
    base.revision.manifest_version == base.manifest.version
    && text_eq base.revision.root_hash (w.manifest_root_hash base.manifest)
    && base.revision.layer_count == length base.manifest.layers

-- The first dropped path whose reason is not an unsupported special file.
unfoldable pub first_drop : List LayerProtectedDrop → Option LayerProtectedDrop
first_drop [] = none
first_drop (d ∷ drops) = elim d.reason [
  | unsupported_special_file ↦ first_drop drops
  | invalid_layer_path ↦ some d
  | command_scratch_path ↦ some d
]

unfoldable pub is_folder : MergedEntry → Bool
is_folder folder = true
is_folder absent = false
is_folder (file _ _) = false
is_folder (link _) = false

-- What `route_change` takes the changed path for.
unfoldable pub changes_dir : World → Manifest → LayerChange → Checked Bool
unfolding and_then is_folder
changes_dir w base (delete path) =
    and_then (w.read_entry path base) (λ entry. pass (is_folder entry))
changes_dir w base (directory _) = pass true
changes_dir w base (opaque_dir _) = pass true
changes_dir w base (write _ _) = pass false
changes_dir w base (write_file _ _ _) = pass false
changes_dir w base (symlink _ _) = pass false

unfoldable pub route_path : World → Manifest → LayerPath → Bool → Checked RouteKind
unfolding and_then is_protected
route_path w base path is_dir =
    if is_protected path
    then fail (rejected (protected_path path))
    else and_then (w.is_ignored base path is_dir) (λ yes. pass (if yes then ignored else source))

unfoldable pub route_change : World → Manifest → LayerChange → Checked RouteKind
unfolding and_then changes_dir route_path
route_change w base change =
    and_then (changes_dir w base change) (λ is_dir. route_path w base (change_path change) is_dir)

-- The validation of a source path against the base.
unfoldable pub validation :
    World → Manifest → SourceValidationProvenance → LayerPath → Checked SourceValidation
unfolding and_then content_fingerprint
validation w base provenance path =
    and_then (content_fingerprint w base path)
      (λ expected. pass (record { path = path; expected = expected; provenance = provenance }))

-- The loop over the descendants of an opaque directory, from `saw_source` and `saw_ignored`.
unfoldable pub plan_descendants :
    World
    → Manifest
    → LayerPath
    → Bool
    → Bool
    → List LayerPath
    → Checked (RouteKind × List SourceValidation)
unfolding and_then is_protected is_folder validation
plan_descendants w base path saw_source saw_ignored [] =
    pass (if saw_ignored then ignored else source, [])
plan_descendants w base path saw_source saw_ignored (descendant ∷ rest) =
    let on_ignored = plan_descendants w base path saw_source true rest in
    let on_source = plan_descendants w base path true saw_ignored rest in
    if is_protected descendant
    then fail (rejected (opaque_dir_protected_descendant descendant))
    else and_then (w.read_entry descendant base) (λ entry.
      and_then (w.is_ignored base descendant (is_folder entry)) (λ yes.
        if yes
        then (if saw_source then fail (rejected (opaque_dir_mixed_routes path)) else on_ignored)
        else and_then (validation w base (opaque_root path) descendant) (λ v.
          if saw_ignored
          then fail (rejected (opaque_dir_mixed_routes path))
          else and_then on_source (λ result. pass (result.0, v ∷ result.1)))))

-- `err.to_string()` of a view that cannot be read is a rejection.
unfoldable pub prepared : {A : Type 0} → Checked A → Checked A
prepared (pass a) = pass a
prepared (fail _) = fail (rejected route_preparation_failed)

unfoldable pub plan_opaque_dir :
    World → Manifest → LayerPath → Checked (RouteKind × List SourceValidation)
unfolding and_then is_protected prepared route_path is_source validation plan_descendants
plan_opaque_dir w base path =
    if is_protected path
    then fail (rejected (protected_path path))
    else and_then (prepared (w.visible_descendants path base)) (λ descendants.
      if ltb opaque_dir_expansion_limit_count (length descendants)
      then fail (rejected (opaque_dir_expansion_limit path))
      else elim descendants [
        | [] ↦ and_then (route_path w base path true) (λ route.
            if is_source route
            then and_then (validation w base (opaque_root path) path) (λ v. pass (route, v ∷ []))
            else pass (route, []))
        | d ∷ ds ↦ plan_descendants w base path false false (d ∷ ds)
      ])

-- One change: its route and its validations.
unfoldable pub plan_explicit :
    World → Manifest → LayerChange → Checked (RouteKind × List SourceValidation)
unfolding and_then route_change is_source validation
plan_explicit w base change = and_then (route_change w base change) (λ route.
    if is_source route
    then and_then (validation w base explicit_change (change_path change))
        (λ v. pass (route, v ∷ []))
    else pass (route, []))

unfoldable pub plan_change :
    World → Manifest → LayerChange → Checked (RouteKind × List SourceValidation)
unfolding plan_opaque_dir plan_explicit
plan_change w base (opaque_dir path) = plan_opaque_dir w base path
plan_change w base (write path content) = plan_explicit w base (write path content)
plan_change w base (write_file path from size) = plan_explicit w base (write_file path from size)
plan_change w base (delete path) = plan_explicit w base (delete path)
plan_change w base (symlink path target) = plan_explicit w base (symlink path target)
plan_change w base (directory path) = plan_explicit w base (directory path)

unfoldable pub counted : RouteKind → PublishRouteSummary → PublishRouteSummary
counted source summary = record summary { source_count = summary.source_count + 1 }
counted ignored summary = record summary { ignored_count = summary.ignored_count + 1 }

-- One change and the plan of those after it.
unfoldable pub planned_first :
    LayerChange → RouteKind × List SourceValidation → PublishPlan → PublishPlan
unfolding counted
planned_first change (route, validations) plan = record {
  accepted = record { change = change; route = route } ∷ plan.accepted;
  source_validations = validations ++ plan.source_validations;
  route_summary = counted route plan.route_summary;
}

unfoldable pub plan_changes : World → Manifest → List LayerChange → Checked PublishPlan
unfolding and_then plan_change planned_first
plan_changes w base [] = pass (record {
  accepted = [];
  source_validations = [];
  route_summary = record { source_count = 0; ignored_count = 0 };
})
plan_changes w base (change ∷ changes) =
    let rest = plan_changes w base changes in
    and_then (plan_change w base change)
      (λ first. and_then rest (λ plan. pass (planned_first change first plan)))

unfoldable pub plan_publish : World → PublishValidatedChangesRequest → Checked PublishPlan
unfolding revision_ok first_drop plan_changes
plan_publish w request =
    if not (revision_ok w request.base)
    then fail (rejected invalid_base_revision)
    else elim (first_drop request.protected_drops) [
      | some d ↦ fail (rejected (protected_drop d))
      | none ↦ plan_changes w request.base.manifest request.changes
    ]
