-- ===== src/Layers/Stack/Invariant/Squashing.antt =====
-- stack/squash.rs: a plan and a commit keep what is held, and the layers that a commit puts in are
-- held.
use ephemeral_sandbox.Prelude.{
  All-append, All-map, ℕ, zero, suc, ◌≡◌, refl, ap, false, ◌||◌, Option, none, some, List, [], ◌∷◌,
  ◌++◌, arith, All, Text, text_eq_iff, has, Bool-cases, Option-cases, inl, inr, ◌==◌, take,
}
use ephemeral_sandbox.Layers.Model.{LayerRef, Manifest, layer_path, manifest_new}
use ephemeral_sandbox.Layers.Leases.{LeaseRegistry, acquire, leased_layers}
use ephemeral_sandbox.Layers.Squash.{
  BuiltBlock, squashed_layer, splice_blocks, record_substitutions,
}
use ephemeral_sandbox.Layers.Squash.Elements.{splice_blocks-All}
use ephemeral_sandbox.Layers.Stack.{Stack, Faults, Result, ok, err}
use ephemeral_sandbox.Layers.Stack.Collect.{release_lease_locked}
use ephemeral_sandbox.Layers.Stack.Commit.{
  planned, plan_squash, promote, demote, undone, Committed, settle_commit, install_squash,
  commit_squash,
}
use ephemeral_sandbox.Layers.Stack.Invariant.{
  Named, Held, IsSafe, leased_layers-inserted, leased_layers-erased, Held-cons, Held-dropped,
}
use ephemeral_sandbox.Layers.Stack.Invariant.Collecting.{release_lease_locked-IsSafe}
use ephemeral_sandbox.Layers.Stack.Invariant.Publishing.{has-own}

planned-IsSafe :
    (m : Manifest) (id : Text) (leases : LeaseRegistry) (blocks : List (List LayerRef)) (s : Stack)
    → All (Held s.dirs) (leased_layers leases)
    → IsSafe s
    → IsSafe (planned m id leases blocks s).1
unfolding planned
planned-IsSafe m id leases [] s h safe = record {
  active = safe.active;
  leased = leased_layers-erased (Held s.dirs) id leases h;
  substituted = safe.substituted;
}
planned-IsSafe m id leases (_ ∷ _) s h safe = record {
  active = safe.active;
  leased = h;
  substituted = safe.substituted;
}

pub plan_squash-IsSafe : (id : Text) (s : Stack) → IsSafe s → IsSafe (plan_squash id s).1
unfolding plan_squash acquire
plan_squash-IsSafe id s safe =
    planned-IsSafe s.manifest id _ _ s
      (leased_layers-inserted (Held s.dirs) id _ s.leases safe.active safe.leased) safe

-- The folders of the blocks are new.
abbrev pub Fresh : List Text → List BuiltBlock → Type 0
Fresh dirs built = All (λ b. has (layer_path b.layer_id) dirs ≡ false) built

-- Nothing but the folders and `staging` changes in a promotion and its undoing.
pub promote-Same :
    (built : List BuiltBlock) (s : Stack)
    → ((promote built s).manifest ≡ s.manifest)
      × ((promote built s).leases ≡ s.leases)
      × ((promote built s).substitutions ≡ s.substitutions)
unfolding promote
promote-Same [] s = (refl, refl, refl)
promote-Same (b ∷ built) s = promote-Same built _

pub demote-Same :
    (built : List BuiltBlock) (s : Stack)
    → ((demote built s).manifest ≡ s.manifest)
      × ((demote built s).leases ≡ s.leases)
      × ((demote built s).substitutions ≡ s.substitutions)
unfolding demote
demote-Same [] s = (refl, refl, refl)
demote-Same (b ∷ built) s = demote-Same built _

promote-Held :
    (built : List BuiltBlock) (s : Stack) (l : LayerRef)
    → Held s.dirs l
    → Held (promote built s).dirs l
unfolding promote
promote-Held [] s l h = h
promote-Held (b ∷ built) s l h = promote-Held built _ l (Held-cons _ s.dirs l h)

promote-squashed :
    (built : List BuiltBlock) (s : Stack)
    → All (λ b. Held (promote built s).dirs (squashed_layer b)) built
unfolding promote
promote-squashed [] s = tt
promote-squashed (b ∷ built) s = (
  promote-Held built _ (squashed_layer b) (refl, has-own (layer_path b.layer_id) s.dirs),
  promote-squashed built _,
)

-- A layer that was there before is not a folder of a block.
demote-Held :
    (built : List BuiltBlock) (dirs : List Text) (s : Stack) (l : LayerRef)
    → Fresh dirs built
    → Held dirs l
    → Held s.dirs l
    → Held (demote built s).dirs l
unfolding demote
demote-Held [] dirs s l new old h = h
demote-Held (b ∷ built) dirs s l new old h = demote-Held built dirs _ l new.1 old (
    Held-dropped (layer_path b.layer_id) s.dirs l
      (ground (
        arith,
        text_eq_iff (layer_path b.layer_id) l.path,
        λ (e : layer_path b.layer_id ≡ l.path). ap (λ q. has q dirs) e,
      ))
      h)

Fresh-take :
    (n : ℕ) (dirs : List Text) (built : List BuiltBlock)
    → Fresh dirs built
    → Fresh dirs (take n built)
Fresh-take zero dirs built h = tt
Fresh-take (suc n) dirs [] h = tt
Fresh-take (suc n) dirs (b ∷ built) h = (h.0, Fresh-take n dirs built h.1)

undone-IsSafe :
    (built : List BuiltBlock) (s : Stack) → Fresh s.dirs built → IsSafe s → IsSafe (undone built s)
unfolding undone
undone-IsSafe built s new safe =
    let (m, l, q) = demote-Same built (promote built s) in
    let (m', l', q') = promote-Same built s in
    record {
      active = rw (m, m') (All-map (Held s.dirs) (Held _) s.manifest.layers held safe.active);
      leased =
          rw (l, l') (All-map (Held s.dirs) (Held _) (leased_layers s.leases) held safe.leased);
      substituted = rw (q, q') safe.substituted;
    }
  where
    held : (r : LayerRef) → Held s.dirs r → Held (demote built (promote built s)).dirs r
    held r h = demote-Held built s.dirs (promote built s) r new h (promote-Held built s r h)

record_substitutions-Named :
    (built : List BuiltBlock) → All (λ r. Named r.s_layer) (record_substitutions built)
unfolding record_substitutions
record_substitutions-Named [] = tt
record_substitutions-Named (b ∷ built) = (refl, record_substitutions-Named built)

module _ (f : Faults) (plan_lease_id : Text) (built : List BuiltBlock) where
  -- From the promoted folders on, for a manifest that names only what is held.
  settle_commit-IsSafe :
      (m : Manifest) (s : Stack)
      → All (Held s.dirs) m.layers
      → IsSafe s
      → IsSafe (settle_commit f plan_lease_id built m s).1
  unfolding settle_commit
  settle_commit-IsSafe m s h safe = released (release_lease_locked f plan_lease_id next).0 _ (
      release_lease_locked-IsSafe f plan_lease_id next (record {
        active = h;
        leased = safe.leased;
        substituted =
            All-append (λ r. Named r.s_layer) s.substitutions _ safe.substituted
              (record_substitutions-Named built);
      }))
    where
      next : Stack
      next = record s {
        manifest = m;
        substitutions = s.substitutions ++ record_substitutions built;
      }

      released :
          (r : Result (Option (List LayerRef))) (t : Stack)
          → IsSafe t
          → IsSafe (
              (elim r as (λ _. Result Committed × Stack) [
                | err e ↦ (err e, t)
                | ok removed ↦ (
                  ok (record { manifest = m; removed = elim removed [ none ↦ [] | some ls ↦ ls ] }),
                  t,
                )
              ]).1)
      released (ok _) t h = h
      released (err _) t h = h

  promote-IsSafe : (s : Stack) → IsSafe s → IsSafe (promote built s)
  promote-IsSafe s safe =
      let (m, l, q) = promote-Same built s in
      record {
        active =
            rw m
              (All-map (Held s.dirs) (Held _) s.manifest.layers (promote-Held built s) safe.active);
        leased = rw l (
            All-map (Held s.dirs) (Held _) (leased_layers s.leases) (promote-Held built s)
              safe.leased);
        substituted = rw q safe.substituted;
      }

  install_squash-IsSafe :
      (m : Manifest) (s : Stack)
      → Fresh s.dirs built
      → splice_blocks s.manifest.layers built ≡ some m.layers
      → f.sync_manifest ≡ false
      → IsSafe s
      → IsSafe (install_squash f plan_lease_id built m s).1
  unfolding install_squash
  install_squash-IsSafe m s new e w safe = elim (Option-cases f.rename_stops) [
    | inr (n, a) ↦
        rw (a, install_squash) (undone-IsSafe (take n built) s (Fresh-take n s.dirs built new) safe)
    | inl a ↦ elim (Bool-cases (f.sync_root || f.write_manifest)) [
      | inl b ↦ rw (a, b, install_squash) (undone-IsSafe built s new safe)
      | inr b ↦
          rw (a, b, w, install_squash)
            (settle_commit-IsSafe m (promote built s)
              (splice_blocks-All (Held _) s.manifest.layers built m.layers e
                (All-map (Held s.dirs) (Held _) s.manifest.layers (promote-Held built s)
                  safe.active)
                (promote-squashed built s))
              (promote-IsSafe s safe))
    ]
  ]

  pub commit_squash-IsSafe :
      (s : Stack)
      → Fresh s.dirs built
      → f.sync_manifest ≡ false
      → IsSafe s
      → IsSafe (commit_squash f plan_lease_id built s).1
  unfolding commit_squash manifest_new
  commit_squash-IsSafe s new w safe = elim (Option-cases (splice_blocks s.manifest.layers built)) [
    | inl a ↦ rw (a, commit_squash) safe
    | inr (layers, a) ↦ elim (Bool-cases (s.manifest.schema_version == 1)) [
      | inr b ↦ rw (a, b, commit_squash) safe
      | inl b ↦ rw (a, b, commit_squash) (install_squash-IsSafe _ s new a w safe)
    ]
  ]
