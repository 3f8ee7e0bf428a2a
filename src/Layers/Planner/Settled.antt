-- ===== src/Layers/Planner/Settled.antt =====
-- stack/publish/resolve.rs: what becomes of a planned change whose path has moved since its base, and
-- what is committed for it.
use ephemeral_sandbox.Prelude.{
  ℕ, ◌≡◌, refl, sym, ap, ◌∙◌, true, false, Option, none, some, List, [], ◌∷◌, arith, All, Text,
  find,
}
use ephemeral_sandbox.Merge.Origins.{LineRange, Origin}
use ephemeral_sandbox.Merge.Loop.{clean, three_way_merge}
use ephemeral_sandbox.Layers.Model.{Manifest}
use ephemeral_sandbox.Layers.Changes.{LayerChange, write, change_path, lookup}
use ephemeral_sandbox.Layers.Changes.Aggregate.{last_with, lookup-put_all}
use ephemeral_sandbox.Layers.Planner.{
  World, pass, ContentFingerprint, absent_content, file_content, symlink_content, directory_content,
  is_source, content_fingerprint, fingerprint_eq, PublishValidatedChangesRequest, ResolvedChangeset,
}
use ephemeral_sandbox.Layers.Planner.Plan.{
  SourceValidation, AcceptedChange, PublishPlan, plan_publish,
}
use ephemeral_sandbox.Layers.Planner.Contents.{
  MergedPath, is_file_write, is_directory, read_command_bytes,
}
use ephemeral_sandbox.Layers.Planner.Resolve.{
  accepted_path, effective_changes, still_counts, is_absent, is_directory_content, same_create,
  validate_sources, resolve_source_conflicts, resolve_changes, resolve_publish_changes,
  validate_structural,
}
use ephemeral_sandbox.Layers.Planner.Expects.{
  and_then_pass, Expects, pass_injective, plan_changes-Expects,
}
use ephemeral_sandbox.Layers.Planner.Unmoved.{plan_publish-plan_changes}
use ephemeral_sandbox.Layers.Planner.Passed.{
  Good, Sorted, skipped, same, twice, moved, validate_sources-Passes,
}
use ephemeral_sandbox.Layers.Planner.Images.{
  Holds, merge_path-clean, nothing, resolve_changes-Image, Image-merged,
}

-- What becomes of a validation: an opaque directory that is overruled; an active content that is the
-- one of the base; the same new directory on both sides; or a merge of the last write at the path, and
-- then the last committed change at the path writes the merged bytes.
pub data Settled (w : World) (base active : Manifest) (accepted : List AcceptedChange)
    (committed : List LayerChange) (v : SourceValidation) : Type 0 where
  overruled :
      still_counts v.provenance (effective_changes accepted) ≡ false
      → Settled w base active accepted committed v
  unmoved :
      (actual : ContentFingerprint)
      → content_fingerprint w active v.path ≡ pass actual
      → fingerprint_eq actual v.expected ≡ true
      → Settled w base active accepted committed v
  created_twice :
      (a : AcceptedChange)
      → v.expected ≡ absent_content
      → content_fingerprint w active v.path ≡ pass directory_content
      → last_with accepted_path v.path accepted none ≡ some a
      → is_source a.route ≡ true
      → is_directory a.change ≡ true
      → Settled w base active accepted committed v
  merged_in :
      (a : AcceptedChange) (command base_bytes active_bytes bytes : List ℕ)
      (origin : List (LineRange × Origin))
      → last_with accepted_path v.path accepted none ≡ some a
      → is_source a.route ≡ true
      → is_file_write a.change ≡ true
      → read_command_bytes w a.change ≡ pass command
      → Holds w base v.path base_bytes
      → Holds w active v.path active_bytes
      → three_way_merge base_bytes active_bytes command ≡ some (clean bytes origin)
      → last_with change_path v.path committed none ≡ some (write v.path bytes)
      → Settled w base active accepted committed v

lookup-effective_changes :
    (path : Text) (accepted : List AcceptedChange)
    → lookup accepted_path path (effective_changes accepted)
      ≡ last_with accepted_path path accepted none
unfolding effective_changes lookup
lookup-effective_changes path accepted = lookup-put_all accepted_path path accepted []

is_absent-absent : (c : ContentFingerprint) → is_absent c ≡ true → c ≡ absent_content
unfolding is_absent
is_absent-absent absent_content h = refl
is_absent-absent (file_content _ _) h = cc
is_absent-absent (symlink_content _) h = cc
is_absent-absent directory_content h = cc

is_directory_content-directory :
    (c : ContentFingerprint) → is_directory_content c ≡ true → c ≡ directory_content
unfolding is_directory_content
is_directory_content-directory absent_content h = cc
is_directory_content-directory (file_content _ _) h = cc
is_directory_content-directory (symlink_content _) h = cc
is_directory_content-directory directory_content h = refl

All-both :
    (P Q R : SourceValidation → Type 0) (vs : List SourceValidation)
    → All P vs
    → ((v : SourceValidation) → Q v → R v)
    → All Q vs
    → All (λ v. P v × R v) vs
All-both P Q R [] p f q = tt
All-both P Q R (v ∷ vs) p f q = ((p.0, f v q.0), All-both P Q R vs p.1 f q.1)

module _ (w : World) (base active : Manifest) (accepted : List AcceptedChange)
    (merged : List (Text × MergedPath)) (resolved : ResolvedChangeset)
    (good : Good w base active (effective_changes accepted) merged)
    (resolves : resolve_changes w base merged accepted ≡ pass resolved) where
  twice-Settled :
      (v : SourceValidation) (actual : ContentFingerprint) (found : Option AcceptedChange)
      → content_fingerprint w active v.path ≡ pass actual
      → last_with accepted_path v.path accepted none ≡ found
      → same_create found v.expected actual ≡ true
      → Settled w base active accepted resolved.changes v
  unfolding same_create
  twice-Settled v actual none c l h = cc
  twice-Settled v actual (some a) c l h =
      let absent : is_absent v.expected ≡ true = ground arith in
      let directory : is_directory_content actual ≡ true = ground arith in
      created_twice a (is_absent-absent v.expected absent)
        (c ∙ ap pass (is_directory_content-directory actual directory)) l (ground arith)
        (ground arith)

  Sorted-Settled :
      (v : SourceValidation)
      → Sorted w base active (effective_changes accepted) merged v
      → Settled w base active accepted resolved.changes v
  Sorted-Settled v (skipped e) = overruled e
  Sorted-Settled v (same actual c e) = unmoved actual c e
  Sorted-Settled v (twice actual c e) =
      twice-Settled v actual (lookup accepted_path v.path (effective_changes accepted)) c
        (sym (lookup-effective_changes v.path accepted)) e
  Sorted-Settled v (moved (m, found)) =
      let at = good v.path m found in
      let last = sym (lookup-effective_changes v.path accepted) ∙ at.last in
      let (base_bytes, active_bytes, b, a, e) =
        merge_path-clean w base active v.path at.command m at.merged in
      merged_in at.accepted at.command base_bytes active_bytes m.bytes m.origin last at.routed
        at.writes at.reads b a e
        (Image-merged w base merged v.path at.accepted m _ _
          (resolve_changes-Image w base merged v.path accepted resolved none none resolves nothing)
          last at.routed at.writes found)

-- Where a request has been planned and its changes are resolved against an active manifest, each
-- validation of the plan expects what the base has at its path, and it is overruled, since the last
-- accepted change at the root of its opaque directory is not an opaque source directory; or the active
-- content there is the expected one; or nothing was there in the base, a directory is there now, and
-- the last accepted change makes one too; or the last accepted change at the path writes a source file,
-- the three-way merge of what the base, the active manifest and the change have is clean, and the last
-- change at the path that is committed writes the merged bytes.
pub resolve_publish_changes-Settled :
    (w : World) (active : Manifest) (request : PublishValidatedChangesRequest) (plan : PublishPlan)
    (resolved : ResolvedChangeset)
    → plan_publish w request ≡ pass plan
    → resolve_publish_changes w active request plan ≡ pass resolved
    → All
        (λ v.
          Expects w request.base.manifest v
          × Settled w request.base.manifest active plan.accepted resolved.changes v)
        plan.source_validations
unfolding resolve_publish_changes resolve_source_conflicts find
resolve_publish_changes-Settled w active request plan resolved planned h =
    let base = request.base.manifest in
    let effective = effective_changes plan.accepted in
    let (_, expects) =
      plan_changes-Expects w base request.changes plan
        (plan_publish-plan_changes w request plan planned) in
    let (merged, a, k) = and_then_pass (resolve_source_conflicts w base active plan) _ resolved h in
    let (sources, b, n) =
      and_then_pass (validate_sources w base active effective [] plan.source_validations) _ merged
        a in
    let (_, _, c) = and_then_pass (validate_structural w base active effective) _ merged n in
    let p =
      validate_sources-Passes w base active effective plan.source_validations [] sources b
        (λ path m e. cc) in
    let same_map = pass_injective sources merged c in
    All-both (Expects w base) (Sorted w base active effective sources)
      (Settled w base active plan.accepted resolved.changes) plan.source_validations expects
      (Sorted-Settled w base active plan.accepted sources resolved p.good
        (ap (λ k. resolve_changes w base k plan.accepted) same_map ∙ k))
      p.sorted
