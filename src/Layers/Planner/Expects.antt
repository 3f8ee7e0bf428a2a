-- ===== src/Layers/Planner/Expects.antt =====
-- stack/publish/plan.rs: what a plan accepts, and what its validations expect.
use ephemeral_sandbox.Prelude.{
  All-append, ◌≡◌, refl, ap, Bool, true, false, List, [], ◌∷◌, map, All, Bool-cases, inl, inr,
  if◌then◌else◌, length, ltb, subst,
}
use ephemeral_sandbox.Layers.Model.{Manifest}
use ephemeral_sandbox.Layers.Changes.{
  LayerChange, LayerPath, write, write_file, delete, symlink, directory, opaque_dir, change_path,
}
use ephemeral_sandbox.Layers.Planner.{
  World, Checked, pass, fail, PlanError, rejected, opaque_dir_mixed_routes, and_then, RouteKind,
  is_source, is_protected, content_fingerprint, opaque_dir_expansion_limit_count, MergedEntry,
}
use ephemeral_sandbox.Layers.Planner.Plan.{
  SourceValidation, SourceValidationProvenance, PublishPlan, validation, is_folder,
  plan_descendants, plan_opaque_dir, plan_explicit, plan_change, plan_changes, planned_first,
  route_change, route_path, prepared, opaque_root, explicit_change,
}

-- A step that passes has a first part that passes.
pub and_then_pass :
    {A B : Type 0} (x : Checked A) (f : A → Checked B) (b : B)
    → and_then x f ≡ pass b
    → (a : A) × (x ≡ pass a) × (f a ≡ pass b)
unfolding and_then
and_then_pass (pass a) f b h = (a, refl, h)
and_then_pass (fail e) f b h = cc

-- The validation expects what the manifest has at its path.
abbrev pub Expects : World → Manifest → SourceValidation → Type 0
Expects w base v = content_fingerprint w base v.path ≡ pass v.expected

fail_pass : {A : Type 0} (x : PlanError) (r : Checked A) (a : A) → r ≡ fail x → r ≡ pass a → ⊥
fail_pass x r a p q = cc

pub pass_injective : {A : Type 0} (a b : A) → pass a ≡ pass b → a ≡ b
pass_injective a b p = cc

module _ (w : World) (base : Manifest) where
  validation-Expects :
      (provenance : SourceValidationProvenance) (path : LayerPath) (v : SourceValidation)
      → validation w base provenance path ≡ pass v
      → Expects w base v
  unfolding validation
  validation-Expects provenance path v h =
      let (expected, c, k) = and_then_pass (content_fingerprint w base path) _ v h in
      subst (λ u. Expects w base u) (pass_injective _ v k) c

  plan_descendants-Expects :
      (path : LayerPath) (ds : List LayerPath) (saw_source saw_ignored : Bool)
      (result : RouteKind × List SourceValidation)
      → plan_descendants w base path saw_source saw_ignored ds ≡ pass result
      → All (Expects w base) result.1
  unfolding plan_descendants
  plan_descendants-Expects path [] saw_source saw_ignored result h =
      subst (λ (r : RouteKind × List SourceValidation). All (Expects w base) r.1)
        (pass_injective _ result h) tt
  plan_descendants-Expects path (d ∷ ds) saw_source saw_ignored result h =
      elim (Bool-cases (is_protected d)) [
        | inl e ↦ absurd (fail_pass _ _ result refl (rw (e, plan_descendants) at h))
        | inr e ↦
            let (entry, _, k) =
              and_then_pass (w.read_entry d base) _ result (rw (e, plan_descendants) at h) in
            let (hidden, _, m) = and_then_pass (w.is_ignored base d (is_folder entry)) _ result k in
            descendant (λ a. λ b. λ r. λ p. plan_descendants-Expects path ds a b r p) entry hidden m
      ]
    where
      on_source :
          ((a b : Bool) (r : RouteKind × List SourceValidation)
            → plan_descendants w base path a b ds ≡ pass r
            → All (Expects w base) r.1)
          → (v : SourceValidation) → validation w base (opaque_root path) d ≡ pass v
          → (if saw_ignored
              then fail (rejected (opaque_dir_mixed_routes path))
              else and_then
                  (plan_descendants w base path true saw_ignored ds)
                  (λ (r : RouteKind × List SourceValidation). pass (r.0, v ∷ r.1)))
            ≡ pass result
          → All (Expects w base) result.1
      on_source ih v c h = elim (Bool-cases saw_ignored) [
        | inl e ↦ absurd (fail_pass _ _ result refl (rw e at h))
        | inr e ↦
            let (r, p, q) =
              and_then_pass (plan_descendants w base path true false ds) _ result (rw e at h) in
            subst (λ (x : RouteKind × List SourceValidation). All (Expects w base) x.1)
              (pass_injective _ result q)
              ((validation-Expects (opaque_root path) d v c, ih true false r p))
      ]

      descendant :
          ((a b : Bool) (r : RouteKind × List SourceValidation)
            → plan_descendants w base path a b ds ≡ pass r
            → All (Expects w base) r.1)
          → (entry : MergedEntry) (hidden : Bool)
          → (if hidden
              then (if saw_source
                  then fail (rejected (opaque_dir_mixed_routes path))
                  else plan_descendants w base path saw_source true ds)
              else and_then (validation w base (opaque_root path) d) (λ v.
                if saw_ignored
                then fail (rejected (opaque_dir_mixed_routes path))
                else and_then
                    (plan_descendants w base path true saw_ignored ds)
                    (λ (r : RouteKind × List SourceValidation). pass (r.0, v ∷ r.1))))
            ≡ pass result
          → All (Expects w base) result.1
      descendant ih entry false h =
          let (v, c, k) = and_then_pass (validation w base (opaque_root path) d) _ result h in
          on_source ih v c k
      descendant ih entry true h = elim (Bool-cases saw_source) [
        | inl e ↦ absurd (fail_pass _ _ result refl (rw e at h))
        | inr e ↦ ih false true result (rw e at h)
      ]

  prepared_pass :
      (r : Checked (List LayerPath)) (ds : List LayerPath) → prepared r ≡ pass ds → r ≡ pass ds
  unfolding prepared
  prepared_pass (pass x) ds h = h
  prepared_pass (fail e) ds h = cc

  one_validation :
      (provenance : SourceValidationProvenance) (path : LayerPath) (route : RouteKind)
      (result : RouteKind × List SourceValidation)
      → (if is_source route
          then and_then {B = RouteKind × List SourceValidation}
              (validation w base provenance path)
              (λ v. pass (route, v ∷ []))
          else pass (route, []))
        ≡ pass result
      → All (Expects w base) result.1
  one_validation provenance path route result h = elim (Bool-cases (is_source route)) [
    | inl e ↦
        let (v, c, k) = and_then_pass (validation w base provenance path) _ result (rw e at h) in
        subst (λ (x : RouteKind × List SourceValidation). All (Expects w base) x.1)
          (pass_injective _ result k) ((validation-Expects provenance path v c, tt))
    | inr e ↦
        subst (λ (x : RouteKind × List SourceValidation). All (Expects w base) x.1)
          (pass_injective _ result (rw e at h)) tt
  ]

  plan_opaque_dir-Expects :
      (path : LayerPath) (result : RouteKind × List SourceValidation)
      → plan_opaque_dir w base path ≡ pass result
      → All (Expects w base) result.1
  unfolding plan_opaque_dir
  plan_opaque_dir-Expects path result h = elim (Bool-cases (is_protected path)) [
    | inl e ↦ absurd (fail_pass _ _ result refl (rw (e, plan_opaque_dir) at h))
    | inr e ↦
        let (ds, _, k) =
          and_then_pass (prepared (w.visible_descendants path base)) _ result
            (rw (e, plan_opaque_dir) at h) in
        elim (Bool-cases (ltb opaque_dir_expansion_limit_count (length ds))) [
          | inl d ↦ absurd (fail_pass _ _ result refl (rw d at k))
          | inr d ↦ expanded ds (rw d at k)
        ]
  ]
    where
      expanded :
          (ds : List LayerPath)
          → elim ds as (λ _. Checked (RouteKind × List SourceValidation)) [
            | [] ↦ and_then (route_path w base path true) (λ route.
                if is_source route
                then and_then
                    (validation w base (opaque_root path) path)
                    (λ v. pass (route, v ∷ []))
                else pass (route, []))
            | d ∷ rest ↦ plan_descendants w base path false false (d ∷ rest)
          ]
            ≡ pass result
          → All (Expects w base) result.1
      expanded [] k =
          let (route, _, m) = and_then_pass (route_path w base path true) _ result k in
          one_validation (opaque_root path) path route result m
      expanded (d ∷ rest) k = plan_descendants-Expects path (d ∷ rest) false false result k

  plan_explicit-Expects :
      (change : LayerChange) (result : RouteKind × List SourceValidation)
      → plan_explicit w base change ≡ pass result
      → All (Expects w base) result.1
  unfolding plan_explicit
  plan_explicit-Expects change result h =
      let (route, _, k) = and_then_pass (route_change w base change) _ result h in
      one_validation explicit_change (change_path change) route result k

  plan_change-Expects :
      (change : LayerChange) (result : RouteKind × List SourceValidation)
      → plan_change w base change ≡ pass result
      → All (Expects w base) result.1
  unfolding plan_change
  plan_change-Expects (opaque_dir path) result h = plan_opaque_dir-Expects path result h
  plan_change-Expects (write path content) result h =
      plan_explicit-Expects (write path content) result h
  plan_change-Expects (write_file path from size) result h =
      plan_explicit-Expects (write_file path from size) result h
  plan_change-Expects (delete path) result h = plan_explicit-Expects (delete path) result h
  plan_change-Expects (symlink path target) result h =
      plan_explicit-Expects (symlink path target) result h
  plan_change-Expects (directory path) result h = plan_explicit-Expects (directory path) result h

  -- The plan accepts the changes as they are, and its validations expect what the base has.
  pub plan_changes-Expects :
      (changes : List LayerChange) (plan : PublishPlan)
      → plan_changes w base changes ≡ pass plan
      → (map (λ a. a.change) plan.accepted ≡ changes) × All (Expects w base) plan.source_validations
  unfolding plan_changes planned_first
  plan_changes-Expects [] plan h =
      subst
        (λ (p : PublishPlan).
          (map (λ a. a.change) p.accepted ≡ []) × All (Expects w base) p.source_validations)
        (pass_injective _ plan h) ((refl, tt))
  plan_changes-Expects (change ∷ changes) plan h =
      let (first, a, k) = and_then_pass (plan_change w base change) _ plan h in
      let (rest, b, m) = and_then_pass (plan_changes w base changes) _ plan k in
      let (same, expects) = plan_changes-Expects changes rest b in
      subst
        (λ (p : PublishPlan).
          (map (λ a. a.change) p.accepted ≡ change ∷ changes)
          × All (Expects w base) p.source_validations)
        (pass_injective _ plan m)
        ((
          ap (◌∷◌ change) same,
          All-append (Expects w base) first.1 rest.source_validations
              (plan_change-Expects change first a) expects,
        ))
