-- ===== src/Layers/Stack/Invariant/Building.antt =====
-- stack/squash.rs: the blocks that are built are those of the plan, in folders that are new, and a
-- whole squash keeps what is held.
use ephemeral_sandbox.Prelude.{
  All-append, ℕ, ◌+◌, ◌≡◌, refl, sym, ap, ◌∙◌, false, Option, none, some, List, [], ◌∷◌, ◌++◌, map,
  Text, has, Bool-cases, Option-cases, inl, inr, subst,
}
use mathlib.Core.List.{append-nil, append_assoc}
use ephemeral_sandbox.Layers.Model.{LayerRef, Manifest, layer_path}
use ephemeral_sandbox.Layers.Squash.{BuiltBlock, find_run}
use ephemeral_sandbox.Layers.Stack.{Stack, Faults, Result, ok, err, StackError}
use ephemeral_sandbox.Layers.Stack.Publish.{allocate_layer_dirs}
use ephemeral_sandbox.Layers.Stack.Commit.{SquashPlan, plan_squash, Committed, commit_squash}
use ephemeral_sandbox.Layers.Stack.Build.{
  unstaged, build_from, build_blocks, after_commit, after_build, after_plan, squash,
}
use ephemeral_sandbox.Layers.Stack.Invariant.{IsSafe}
use ephemeral_sandbox.Layers.Stack.Invariant.Collecting.{release_lease-IsSafe}
use ephemeral_sandbox.Layers.Stack.Invariant.Publishing.{
  allocate_from-Recounted, allocate_from-fresh,
}
use ephemeral_sandbox.Layers.Stack.Invariant.Squashing.{
  Fresh, plan_squash-IsSafe, commit_squash-IsSafe,
}

abbrev restage : List Text → ℕ → Stack → Stack
restage staging n s = record s { staging = staging; next_unique = n }

-- Only the staging folders and the counter change.
abbrev pub Restaged : Stack → Stack → Type 0
Restaged s t = (staging : List Text) × (n : ℕ) × (t ≡ restage staging n s)

unstaged-Restaged : (built : List BuiltBlock) (s : Stack) → Restaged s (unstaged built s)
unfolding unstaged
unstaged-Restaged [] s = (s.staging, s.next_unique, refl)
unstaged-Restaged (b ∷ built) s = let (g, n, e) = unstaged-Restaged built _ in (g, n, e)

Restaged-then : (s t u : Stack) → Restaged s t → Restaged t u → Restaged s u
Restaged-then s t u (g, n, e) (h, m, d) = (h, m, d ∙ ap (restage h m) e)

allocated_Restaged : (v : ℕ) (s : Stack) → Restaged s (allocate_layer_dirs b'S' v s).1
unfolding allocate_layer_dirs
allocated_Restaged v s = let (n, e) = allocate_from-Recounted 100 b'S' v s in (s.staging, n, e)

allocated_new :
    (v : ℕ) (s : Stack) (id : Text)
    → (allocate_layer_dirs b'S' v s).0 ≡ some id
    → has (layer_path id) s.dirs ≡ false
unfolding allocate_layer_dirs
allocated_new v s id h = allocate_from-fresh 100 b'S' v s id h

-- The end of a build of the blocks `before`: an error, or all of them built under new ids, and in both
-- cases nothing has changed but the staging folders and the counter.
pub data Builds (s : Stack) (before : List (List LayerRef))
    : Result (List BuiltBlock) × Stack → Type 0 where
  failed : (e : StackError) (t : Stack) → Restaged s t → Builds s before (err e, t)
  finished :
      (built : List BuiltBlock) (t : Stack)
      → Restaged s t
      → Fresh s.dirs built
      → map (λ b. b.replaced) built ≡ before
      → Builds s before (ok built, t)

module _ (f : Faults) (manifest : Manifest) (s : Stack) where
  build_from-Builds :
      (blocks before : List (List LayerRef)) (built : List BuiltBlock) (t : Stack)
      → Restaged s t
      → Fresh s.dirs built
      → map (λ b. b.replaced) built ≡ before
      → Builds s (before ++ blocks) (build_from f manifest blocks built t)
  unfolding build_from
  build_from-Builds [] before built t r new same =
      finished built t r new (same ∙ sym (append-nil before))
  build_from-Builds (block ∷ blocks) before built t r new same =
      elim (Option-cases (allocate_layer_dirs b'S' (manifest.version + 1) t).0) [
        | inl e ↦
            rw (e, build_from)
              (failed _ _ (Restaged-then s _ _ allocated (unstaged-Restaged built _)))
        | inr (id, e) ↦ elim (Bool-cases f.create_staging) [
          | inl c ↦
              rw (e, c, build_from)
                (failed _ _ (Restaged-then s _ _ allocated (unstaged-Restaged built _)))
          | inr c ↦ elim (Option-cases (find_run manifest.layers block)) [
            | inl d ↦
                rw (e, c, d, build_from)
                  (failed _ _ (Restaged-then s _ _ (put id) (unstaged-Restaged built (staged id))))
            | inr (n, d) ↦ elim (Bool-cases (f.flatten_fails id)) [
              | inl g ↦
                  rw (e, c, d, g, build_from)
                    (failed _ _
                      (Restaged-then s _ _ (put id) (unstaged-Restaged (more id) (staged id))))
              | inr g ↦
                  rw (e, c, d, g, build_from)
                    (subst (λ bs. Builds s bs (build_from f manifest blocks (more id) (staged id)))
                      (append_assoc before (block ∷ []) blocks)
                      (build_from-Builds blocks (before ++ block ∷ []) (more id) (staged id)
                        (put id)
                        (All-append (λ b. has (layer_path b.layer_id) s.dirs ≡ false) built _ new
                          ((fresh id e, tt)))
                        (mapped built before id same)))
            ]
          ]
        ]
      ]
    where
      allocated : Restaged s (allocate_layer_dirs b'S' (manifest.version + 1) t).1
      allocated = Restaged-then s t _ r (allocated_Restaged (manifest.version + 1) t)

      more : Text → List BuiltBlock
      more id = built ++ record { layer_id = id; replaced = block } ∷ []

      staged : Text → Stack
      staged id = record (allocate_layer_dirs b'S' (manifest.version + 1) t).1 {
        staging = id ∷ (allocate_layer_dirs b'S' (manifest.version + 1) t).1.staging;
      }

      put : (id : Text) → Restaged s (staged id)
      put id =
          let (g, n, e) = allocated in
          (id ∷ g, n, ap (λ (x : Stack). restage (id ∷ x.staging) x.next_unique x) e)

      fresh :
          (id : Text)
          → (allocate_layer_dirs b'S' (manifest.version + 1) t).0 ≡ some id
          → has (layer_path id) s.dirs ≡ false
      fresh id e =
          let (_, _, q) = r in
          subst (λ ds. has (layer_path id) ds ≡ false) (ap (λ (x : Stack). x.dirs) q)
            (allocated_new (manifest.version + 1) t id e)

      mapped :
          (xs : List BuiltBlock) (ys : List (List LayerRef)) (id : Text)
          → map (λ b. b.replaced) xs ≡ ys
          → map (λ b. b.replaced) (xs ++ record { layer_id = id; replaced = block } ∷ [])
            ≡ ys ++ block ∷ []
      mapped [] ys id e = ap (λ zs. zs ++ block ∷ []) e
      mapped (x ∷ xs) ys id e =
          ap (◌∷◌ x.replaced) (mapped xs _ id refl) ∙ ap (λ zs. zs ++ block ∷ []) e

-- A build of a plan ends in an error, or builds all blocks of the plan in order, in folders that are
-- not there yet; in both cases only staging folders and the counter of ids change.
pub build_blocks-Builds :
    (f : Faults) (plan : SquashPlan) (s : Stack) → Builds s plan.blocks (build_blocks f plan s)
unfolding build_blocks
build_blocks-Builds f plan s =
    build_from-Builds f plan.manifest s plan.blocks [] [] s (s.staging, s.next_unique, refl) tt refl

Restaged-IsSafe : (s t : Stack) → Restaged s t → IsSafe s → IsSafe t
Restaged-IsSafe s t (g, n, e) safe =
    rw e (record { active = safe.active; leased = safe.leased; substituted = safe.substituted })

pub build_blocks-IsSafe :
    (f : Faults) (plan : SquashPlan) (s : Stack) → IsSafe s → IsSafe (build_blocks f plan s).1
build_blocks-IsSafe f plan s safe = ended (build_blocks f plan s) (build_blocks-Builds f plan s)
  where
    ended : (r : Result (List BuiltBlock) × Stack) → Builds s plan.blocks r → IsSafe r.1
    ended r (failed e t q) = Restaged-IsSafe s t q safe
    ended r (finished built t q new same) = Restaged-IsSafe s t q safe

after_commit-IsSafe :
    (f : Faults) (plan_lease_id : Text) (built : List BuiltBlock) (r : Result Committed × Stack)
    → IsSafe r.1
    → IsSafe (after_commit f plan_lease_id built r).1
unfolding after_commit
after_commit-IsSafe f id built (ok c, s) safe = safe
after_commit-IsSafe f id built (err e, s) safe =
    release_lease-IsSafe f id (unstaged built s)
      (Restaged-IsSafe s _ (unstaged-Restaged built s) safe)

after_build-IsSafe :
    (f : Faults) (plan : SquashPlan) (s : Stack) (r : Result (List BuiltBlock) × Stack)
    → Builds s plan.blocks r
    → f.sync_manifest ≡ false
    → IsSafe s
    → IsSafe (after_build f plan r).1
unfolding after_build
after_build-IsSafe f plan s r (failed e t q) w safe =
    release_lease-IsSafe f plan.plan_lease_id t (Restaged-IsSafe s t q safe)
after_build-IsSafe f plan s r (finished built t (g, n, e) new _) w safe =
    after_commit-IsSafe f plan.plan_lease_id built (commit_squash f plan.plan_lease_id built t) (
      commit_squash-IsSafe f plan.plan_lease_id built t
        (subst (λ ds. Fresh ds built) (sym (ap (λ (x : Stack). x.dirs) e)) new) w
        (Restaged-IsSafe s t (g, n, e) safe))

after_plan-IsSafe :
    (f : Faults) (r : Result (Option SquashPlan) × Stack)
    → f.sync_manifest ≡ false
    → IsSafe r.1
    → IsSafe (after_plan f r).1
unfolding after_plan
after_plan-IsSafe f (err e, s) w safe = safe
after_plan-IsSafe f (ok none, s) w safe = safe
after_plan-IsSafe f (ok (some plan), s) w safe =
    after_build-IsSafe f plan s (build_blocks f plan s) (build_blocks-Builds f plan s) w safe

-- A whole squash keeps the folder of every layer that the active manifest or a live lease names,
-- wherever it fails, unless the sync after the manifest's rename does.
pub squash-IsSafe :
    (f : Faults) (lease_id : Text) (s : Stack)
    → f.sync_manifest ≡ false
    → IsSafe s
    → IsSafe (squash f lease_id s).1
unfolding squash
squash-IsSafe f lease_id s w safe =
    after_plan-IsSafe f (plan_squash lease_id s) w (plan_squash-IsSafe lease_id s safe)
