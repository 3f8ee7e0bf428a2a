-- ===== src/Layers/Planner/Unmoved.antt =====
-- A request whose base is still the active manifest: nothing conflicts, and its changes are what is
-- committed.
use ephemeral_sandbox.Prelude.{
  ℕ, ◌≡◌, refl, ap, ◌∙◌, true, false, none, some, List, [], ◌∷◌, ◌++◌, map, arith, All, Text,
  text_eq_iff, Bool-cases, Option-cases, inl, inr, find,
}
use ephemeral_sandbox.Layers.Model.{Manifest, layers_eq_refl}
use ephemeral_sandbox.Layers.Stack.{manifest_eq}
use ephemeral_sandbox.Layers.Changes.{
  LayerChange, LayerPath, write, write_file, delete, symlink, directory, opaque_dir,
}
use ephemeral_sandbox.Layers.Planner.{
  World, Checked, pass, fail, PlanError, and_then, ContentFingerprint, absent_content, file_content,
  symlink_content, directory_content, RouteKind, source, ignored, fingerprint_eq, flag_eq,
  PublishValidatedChangesRequest, ResolvedChangeset, MergedEntry, absent, file, link, folder,
}
use ephemeral_sandbox.Layers.Planner.Plan.{
  SourceValidation, AcceptedChange, PublishPlan, plan_changes, plan_publish, revision_ok,
  first_drop,
}
use ephemeral_sandbox.Layers.Planner.Contents.{
  FileBytes, bytes_read, no_file, not_a_file, merged_of, ranges_of, is_file_write, read_file,
  read_command_bytes, mergeable, clean_origin,
}
use ephemeral_sandbox.Layers.Planner.Resolve.{
  accepted_path, effective_changes, still_counts, validate_sources, validate_structural,
  resolve_source_conflicts, resolve_change, resolve_changes, resolve_publish_changes,
}
use ephemeral_sandbox.Merge.Origins.{LineRange, Origin}
use ephemeral_sandbox.Merge.Loop.{three_way_merge}
use ephemeral_sandbox.Layers.Planner.Expects.{Expects, plan_changes-Expects}

-- Nothing fails to be read.
pub record Readable (w : World) : Type 0 where
  pub entries : (p : LayerPath) (m : Manifest) → (e : MergedEntry) × (w.read_entry p m ≡ pass e)
  pub limited :
      (p : LayerPath) (m : Manifest) → (e : MergedEntry) × (w.read_entry_limited p m ≡ pass e)
  pub sources : (from : Text) → (bytes : List ℕ) × (w.read_source from ≡ pass bytes)

manifest_eq_refl : (m : Manifest) → manifest_eq m m ≡ true
unfolding manifest_eq
manifest_eq_refl m = ground (arith, layers_eq_refl m.layers)

fingerprint_eq_refl : (c : ContentFingerprint) → fingerprint_eq c c ≡ true
unfolding fingerprint_eq flag_eq
fingerprint_eq_refl absent_content = refl
fingerprint_eq_refl (file_content d true) = ground (arith, text_eq_iff d d)
fingerprint_eq_refl (file_content d false) = ground (arith, text_eq_iff d d)
fingerprint_eq_refl (symlink_content t) = ground (arith, text_eq_iff t t)
fingerprint_eq_refl directory_content = refl

validate_sources_unmoved :
    (w : World) (base : Manifest) (effective : List AcceptedChange) (vs : List SourceValidation)
    → All (Expects w base) vs
    → validate_sources w base base effective [] vs ≡ pass []
unfolding validate_sources and_then
validate_sources_unmoved w base effective [] h = refl
validate_sources_unmoved w base effective (v ∷ vs) h =
    elim (Bool-cases (still_counts v.provenance effective)) [
      | inr e ↦ rw (e, validate_sources) (validate_sources_unmoved w base effective vs h.1)
      | inl e ↦
          rw (e, h.0, fingerprint_eq_refl v.expected, validate_sources)
            (validate_sources_unmoved w base effective vs h.1)
    ]

module _ (w : World) (readable : Readable w) (base : Manifest) where
  read_command_bytes_passes :
      (change : LayerChange) → (bytes : List ℕ) × (read_command_bytes w change ≡ pass bytes)
  unfolding read_command_bytes
  read_command_bytes_passes (write _ content) = (content, refl)
  read_command_bytes_passes (write_file _ from _) = readable.sources from
  read_command_bytes_passes (delete _) = ([], refl)
  read_command_bytes_passes (symlink _ _) = ([], refl)
  read_command_bytes_passes (directory _) = ([], refl)
  read_command_bytes_passes (opaque_dir _) = ([], refl)

  read_file_passes : (path : LayerPath) → (read : FileBytes) × (read_file w base path ≡ pass read)
  unfolding read_file
  read_file_passes path =
      let (entry, e) = readable.limited path base in rw (e, read_file) (of entry)
    where
      of :
          (entry : MergedEntry)
          → (read : FileBytes) × (elim entry as (λ _. Checked FileBytes) [
            | file bytes _ ↦ pass (bytes_read bytes)
            | absent ↦ pass no_file
            | link _ ↦ pass not_a_file
            | folder ↦ pass not_a_file
          ]
              ≡ pass read)
      of (file bytes _) = (bytes_read bytes, refl)
      of absent = (no_file, refl)
      of (link _) = (not_a_file, refl)
      of folder = (not_a_file, refl)

  clean_origin_passes :
      (path : LayerPath) (command : List ℕ)
      → (ranges : List (LineRange × Origin)) × (clean_origin w base path command ≡ pass ranges)
  unfolding clean_origin and_then mergeable
  clean_origin_passes path command =
      let (read, e) = read_file_passes path in rw (e, clean_origin) (of read)
    where
      of :
          (read : FileBytes)
          → (ranges : List (LineRange × Origin)) × (elim (mergeable read)
                as (λ _. Checked (List (LineRange × Origin))) [
                  | none ↦ pass []
                  | some base_bytes ↦
                      pass (ranges_of (merged_of (three_way_merge base_bytes base_bytes command)))
                ]
              ≡ pass ranges)
      of (bytes_read bytes) = (_, refl)
      of no_file = (_, refl)
      of not_a_file = (_, refl)

  resolve_change_passes :
      (accepted : AcceptedChange)
      → (o : List (LayerPath × List (LineRange × Origin))) × (resolve_change w base [] accepted
          ≡ pass (accepted.change, o))
  unfolding resolve_change and_then find
  resolve_change_passes accepted = elim (Bool-cases (is_file_write accepted.change)) [
    | inr e ↦ ([], rw (e, resolve_change))
    | inl e ↦ rw (e, resolve_change) (routed accepted.route)
  ]
    where
      routed :
          (route : RouteKind)
          → (o : List (LayerPath × List (LineRange × Origin))) × (elim route
                as (λ _. Checked (LayerChange × List (LayerPath × List (LineRange × Origin)))) [
                  | ignored ↦ pass (accepted.change, (accepted_path accepted, []) ∷ [])
                  | source ↦ and_then (read_command_bytes w accepted.change) (λ command.
                      and_then
                        (clean_origin w base (accepted_path accepted) command)
                        (λ ranges. pass (accepted.change, (accepted_path accepted, ranges) ∷ [])))
                ]
              ≡ pass (accepted.change, o))
      routed ignored = (_, refl)
      routed source =
          let (command, c) = read_command_bytes_passes accepted.change in
          let (ranges, r) = clean_origin_passes (accepted_path accepted) command in
          ((accepted_path accepted, ranges) ∷ [], rw (c, r))

  resolve_changes_passes :
      (accepted : List AcceptedChange)
      → (resolved : ResolvedChangeset) × (resolve_changes w base [] accepted ≡ pass resolved)
        × (resolved.changes ≡ map (λ a. a.change) accepted)
  unfolding resolve_changes and_then
  resolve_changes_passes [] = (_, refl, refl)
  resolve_changes_passes (a ∷ accepted) =
      let (o, e) = resolve_change_passes a in
      let (later, f, same) = resolve_changes_passes accepted in
      (
        record { changes = a.change ∷ later.changes; origin = o ++ later.origin },
        rw (e, f, resolve_changes),
        ap (◌∷◌ a.change) same,
      )

-- A plan is that of the changes of its request.
pub plan_publish-plan_changes :
    (w : World) (request : PublishValidatedChangesRequest) (plan : PublishPlan)
    → plan_publish w request ≡ pass plan
    → plan_changes w request.base.manifest request.changes ≡ pass plan
unfolding plan_publish
plan_publish-plan_changes w request plan p = elim (Bool-cases (revision_ok w request.base)) [
  | inr e ↦ absurd (fail-pass _ _ refl (rw (e, plan_publish) at p))
  | inl e ↦ elim (Option-cases (first_drop request.protected_drops)) [
    | inr (d, f) ↦ absurd (fail-pass _ _ refl (rw (e, f, plan_publish) at p))
    | inl f ↦ rw (e, f, plan_publish) at p
  ]
]
  where
    fail-pass : (x : PlanError) (r : Checked PublishPlan) → r ≡ fail x → r ≡ pass plan → ⊥
    fail-pass x r a b = cc

-- Where the base of a planned request is still the active manifest and all reads succeed, the
-- resolver passes, and what it commits are the changes of the request.
pub resolve_publish_changes_unmoved :
    (w : World) (request : PublishValidatedChangesRequest) (plan : PublishPlan)
    → Readable w
    → plan_publish w request ≡ pass plan
    → (resolved : ResolvedChangeset) × (resolve_publish_changes w request.base.manifest request plan
        ≡ pass resolved)
      × (resolved.changes ≡ request.changes)
unfolding resolve_publish_changes resolve_source_conflicts validate_structural and_then plan_publish
resolve_publish_changes_unmoved w request plan readable h =
    let base = request.base.manifest in
    let (same, expects) =
      plan_changes-Expects w base request.changes plan
        (plan_publish-plan_changes w request plan h) in
    let (resolved, e, changes) = resolve_changes_passes w readable base plan.accepted in
    (
      resolved,
      rw
          (
            validate_sources_unmoved w base (effective_changes plan.accepted)
                plan.source_validations expects,
            manifest_eq_refl base,
          )
          e,
      changes ∙ same,
    )
