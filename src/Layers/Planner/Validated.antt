-- ===== src/Layers/Planner/Validated.antt =====
-- stack/ops/publish.rs: `publish_validated_changes`.
use ephemeral_sandbox.Prelude.{
  ◌≡◌, refl, Bool, true, false, not, Option, List, [], ◌∷◌, Text, if◌then◌else◌,
}
use ephemeral_sandbox.Merge.Origins.{LineRange, Origin}
use ephemeral_sandbox.Layers.Model.{Manifest}
use ephemeral_sandbox.Layers.Changes.{LayerChange, LayerPath, published_layer_bytes}
use ephemeral_sandbox.Layers.Stack.{Stack, StackError, Result, ok, err, Faults}
use ephemeral_sandbox.Layers.Stack.Publish.{PublishLayerOutcome, publish_layer_unlocked}
use ephemeral_sandbox.Layers.Stack.Invariant.{IsSafe}
use ephemeral_sandbox.Layers.Stack.Invariant.Publishing.{
  publish_layer_unlocked-Published, Published-IsSafe,
}
use ephemeral_sandbox.Layers.Planner.{
  World, Checked, pass, fail, PlanError, PublishValidatedChangesRequest, PublishRouteSummary,
  ResolvedChangeset,
}
use ephemeral_sandbox.Layers.Planner.Plan.{PublishPlan, plan_publish}
use ephemeral_sandbox.Layers.Planner.Resolve.{resolve_publish_changes}

pub record PublishValidatedChangesResult : Type 0 where
  pub manifest : Manifest
  pub route_summary : PublishRouteSummary
  pub no_op : Bool
  pub origin : List (LayerPath × List (LineRange × Origin))

pub data ValidatedOutcome : Type 0 where
  published : PublishValidatedChangesResult → ValidatedOutcome
  plan_failed : PlanError → ValidatedOutcome
  publish_failed : StackError → ValidatedOutcome

-- From the publish on.
unfoldable pub validated_result :
    PublishPlan → ResolvedChangeset → Result PublishLayerOutcome × Stack → ValidatedOutcome × Stack
validated_result plan resolved (err e, s) = (publish_failed e, s)
validated_result plan resolved (ok outcome, s) = (
  published (record {
    manifest = outcome.manifest;
    route_summary = plan.route_summary;
    no_op = not outcome.created;
    origin = if outcome.created then resolved.origin else [];
  }),
  s,
)

-- The resolved changeset, published if it is not empty.
unfoldable pub publish_resolved :
    Faults
    → (List LayerChange → Option Text)
    → PublishPlan
    → ResolvedChangeset
    → Stack
    → ValidatedOutcome × Stack
unfolding validated_result publish_layer_unlocked published_layer_bytes
publish_resolved f layer_digest plan resolved s = elim resolved.changes [
  | [] ↦ (
    published (record {
      manifest = s.manifest;
      route_summary = plan.route_summary;
      no_op = true;
      origin = [];
    }),
    s,
  )
  | change ∷ changes ↦ validated_result plan resolved (
      publish_layer_unlocked f s.manifest (layer_digest (change ∷ changes))
        (published_layer_bytes (change ∷ changes)) s)
]

-- `layer_digest` is `try_layer_digest`.
unfoldable pub publish_validated_changes :
    World
    → Faults
    → (List LayerChange → Option Text)
    → PublishValidatedChangesRequest
    → Stack
    → ValidatedOutcome × Stack
unfolding plan_publish resolve_publish_changes publish_resolved
publish_validated_changes w f layer_digest request s = elim (plan_publish w request) [
  | fail e ↦ (plan_failed e, s)
  | pass plan ↦ elim (resolve_publish_changes w s.manifest request plan) [
    | fail e ↦ (plan_failed e, s)
    | pass resolved ↦ publish_resolved f layer_digest plan resolved s
  ]
]

validated_result-state :
    (plan : PublishPlan) (resolved : ResolvedChangeset) (r : Result PublishLayerOutcome × Stack)
    → (validated_result plan resolved r).1 ≡ r.1
unfolding validated_result
validated_result-state plan resolved (err e, s) = refl
validated_result-state plan resolved (ok outcome, s) = refl

publish_resolved-IsSafe :
    (f : Faults) (layer_digest : List LayerChange → Option Text) (plan : PublishPlan)
    (changes : List LayerChange) (resolved : ResolvedChangeset) (s : Stack)
    → resolved.changes ≡ changes
    → f.sync_manifest ≡ false
    → IsSafe s
    → IsSafe (publish_resolved f layer_digest plan resolved s).1
unfolding publish_resolved
publish_resolved-IsSafe f layer_digest plan [] resolved s e sync safe =
    rw (e, publish_resolved) safe
publish_resolved-IsSafe f layer_digest plan (change ∷ changes) resolved s e sync safe =
    rw (e, publish_resolved)
      (rw
        (validated_result-state plan resolved (
          publish_layer_unlocked f s.manifest (layer_digest (change ∷ changes))
            (published_layer_bytes (change ∷ changes)) s))
        (Published-IsSafe f.sync_manifest s s.manifest _
          (publish_layer_unlocked-Published f s.manifest _ s (layer_digest (change ∷ changes))) sync
          safe))

pub publish_validated_changes-IsSafe :
    (w : World) (f : Faults) (layer_digest : List LayerChange → Option Text)
    (request : PublishValidatedChangesRequest) (s : Stack)
    → f.sync_manifest ≡ false
    → IsSafe s
    → IsSafe (publish_validated_changes w f layer_digest request s).1
unfolding publish_validated_changes
publish_validated_changes-IsSafe w f layer_digest request s sync safe =
    planned (plan_publish w request)
  where
    resolved_safe :
        (plan : PublishPlan) (r : Checked ResolvedChangeset)
        → IsSafe (
            (elim r as (λ _. ValidatedOutcome × Stack) [
              | fail e ↦ (plan_failed e, s)
              | pass resolved ↦ publish_resolved f layer_digest plan resolved s
            ]).1)
    resolved_safe plan (fail e) = safe
    resolved_safe plan (pass resolved) =
        publish_resolved-IsSafe f layer_digest plan _ resolved s refl sync safe

    planned :
        (r : Checked PublishPlan)
        → IsSafe (
            (elim r as (λ _. ValidatedOutcome × Stack) [
              | fail e ↦ (plan_failed e, s)
              | pass plan ↦
                  elim (resolve_publish_changes w s.manifest request plan)
                    as (λ _. ValidatedOutcome × Stack) [
                      | fail e ↦ (plan_failed e, s)
                      | pass resolved ↦ publish_resolved f layer_digest plan resolved s
                    ]
            ]).1)
    planned (fail e) = safe
    planned (pass plan) = resolved_safe plan (resolve_publish_changes w s.manifest request plan)
