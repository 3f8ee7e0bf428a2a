-- ===== src/Layers/Stack/Invariant/Publishing.antt =====
-- stack/ops/publish.rs keeps every layer that is held, and does all or nothing to the manifest.
use ephemeral_sandbox.Prelude.{
  All-map, All, subst, ℕ, zero, suc, ◌+◌, ◌≡◌, refl, sym, ap, ◌∙◌, Bool, true, false, ◌||◌, Option,
  none, some, List, ◌∷◌, arith, Text, text_eq_iff, has, dropped, has-dropped, inserted, Bool-cases,
  inl, inr, ◌==◌,
}
use ephemeral_sandbox.Layers.Model.{
  LayerRef, Manifest, layer_path, manifest_new, layers_eq→eq, format_layer_id,
}
use ephemeral_sandbox.Layers.Stack.{
  Stack, Faults, Result, ok, err, StackError, layer_id_allocation, io, manifest_eq,
}
use ephemeral_sandbox.Layers.Stack.Publish.{
  allocate_from, allocate_layer_dirs, head_layer_digest, head_refused, same_digest,
  PublishLayerOutcome, discard, install, write_layer, publish_layer_unlocked, publish_layer,
}
use ephemeral_sandbox.Layers.Stack.Invariant.{Held, IsSafe, Held-cons, Held-dropped}

pub manifest_eq→eq : (m n : Manifest) → manifest_eq m n ≡ true → m ≡ n
unfolding manifest_eq
manifest_eq→eq m n h = ground (arith, layers_eq→eq m.layers n.layers)

pub allocate_from-Recounted :
    (tries prefix version : ℕ) (s : Stack)
    → (n : ℕ) × ((allocate_from tries prefix version s).1 ≡ record s { next_unique = n })
unfolding allocate_from
allocate_from-Recounted zero prefix version s = (s.next_unique, refl)
allocate_from-Recounted (suc tries) prefix version s =
    elim (Bool-cases (has id s.staging || has (layer_path id) s.dirs)) [
      | inl e ↦ rw (e, allocate_from) (allocate_from-Recounted tries prefix version _)
      | inr e ↦ rw (e, allocate_from) ((s.next_unique + 1, refl))
    ]
  where
    id : Text
    id = format_layer_id prefix version s.next_unique

pub allocate_from-fresh :
    (tries prefix version : ℕ) (s : Stack) (id : Text)
    → (allocate_from tries prefix version s).0 ≡ some id
    → has (layer_path id) s.dirs ≡ false
unfolding allocate_from
allocate_from-fresh zero prefix version s id h = cc
allocate_from-fresh (suc tries) prefix version s id h =
    elim (Bool-cases (has next s.staging || has (layer_path next) s.dirs)) [
      | inl e ↦ allocate_from-fresh tries prefix version _ id (rw (e, allocate_from) at h)
      | inr e ↦ ground (arith, same (rw (e, allocate_from) at h))
    ]
  where
    next : Text
    next = format_layer_id prefix version s.next_unique

    same : some next ≡ some id → next ≡ id
    same p = cc

-- A new folder, and a new folder that is taken away again.
module _ (p : Text) (dirs : List Text) (new : has p dirs ≡ false) where
  Held-discarded : (l : LayerRef) → Held dirs l → Held (dropped p (p ∷ dirs)) l
  unfolding has
  Held-discarded l h =
      Held-dropped p (p ∷ dirs) l
        (ground (arith, text_eq_iff p l.path, λ (e : p ≡ l.path). ap (λ q. has q dirs) e))
        (Held-cons p dirs l h)

-- The manifest with one more layer on top.
abbrev pub on_top : Text → Manifest → Manifest
on_top id m = record {
  version = m.version + 1;
  layers = record { layer_id = id; path = layer_path id } ∷ m.layers;
  schema_version = m.schema_version;
}

-- What a publish on `active` may come to: an error that leaves the manifest, the leases and all
-- that is held as they are; no change; a new layer, in a new folder, on an `active` that is the
-- manifest of the stack; or, where the sync after the rename of the manifest fails, an error with the
-- new manifest in place and the folder of its new layer removed.
pub data Published (unsyncs : Bool) (s : Stack) (active : Manifest)
    : Result PublishLayerOutcome × Stack → Type 0 where
  refused :
      (e : StackError) (t : Stack)
      → t.manifest ≡ s.manifest
      → t.leases ≡ s.leases
      → t.substitutions ≡ s.substitutions
      → ((l : LayerRef) → Held s.dirs l → Held t.dirs l)
      → Published unsyncs s active (err e, t)
  unchanged : Published unsyncs s active (ok (record { manifest = active; created = false }), s)
  created :
      (id : Text) (t : Stack)
      → s.manifest ≡ active
      → has (layer_path id) s.dirs ≡ false
      → t.manifest ≡ on_top id active
      → t.leases ≡ s.leases
      → t.substitutions ≡ s.substitutions
      → t.dirs ≡ layer_path id ∷ s.dirs
      → unsyncs ≡ false
      → Published unsyncs s active (ok (record { manifest = on_top id active; created = true }), t)
  unsynced :
      (id : Text) (t : Stack)
      → s.manifest ≡ active
      → t.manifest ≡ on_top id active
      → t.leases ≡ s.leases
      → t.substitutions ≡ s.substitutions
      → t.dirs ≡ dropped (layer_path id) (layer_path id ∷ s.dirs)
      → unsyncs ≡ true
      → Published unsyncs s active (err io, t)

module _ (f : Faults) (active : Manifest) (id : Text) (size : ℕ) where
  -- `t` is the stack after the rename and the digest.
  install-Published :
      (s t : Stack)
      → t.manifest ≡ s.manifest
      → t.leases ≡ s.leases
      → t.substitutions ≡ s.substitutions
      → t.dirs ≡ layer_path id ∷ s.dirs
      → has (layer_path id) s.dirs ≡ false
      → Published f.sync_manifest s active (install f active id size t)
  unfolding install discard manifest_new
  install-Published s t m l q d new = elim (Bool-cases (manifest_eq t.manifest active)) [
    | inr e ↦ rw (e, install) (refused _ _ m l q held)
    | inl e ↦ elim (Bool-cases (active.schema_version == 1)) [
      | inr v ↦ rw (e, v, install) (refused _ _ m l q (λ r. λ h. rw d (Held-cons _ s.dirs r h)))
      | inl v ↦ elim (Bool-cases f.write_manifest) [
        | inl w ↦ rw (e, v, w, install) (refused _ _ m l q held)
        | inr w ↦ elim (Bool-cases f.sync_manifest) [
          | inl x ↦
              rw (e, v, w, x, install)
                (unsynced id _ (sym m ∙ manifest_eq→eq t.manifest active e) refl l q
                  (ap (dropped (layer_path id)) d) refl)
          | inr x ↦
              rw (e, v, w, x, install)
                (created id _ (sym m ∙ manifest_eq→eq t.manifest active e) new refl l q d refl)
        ]
      ]
    ]
  ]
    where
      held : (r : LayerRef) → Held s.dirs r → Held (dropped (layer_path id) t.dirs) r
      held r h = rw d (Held-discarded (layer_path id) s.dirs new r h)

  write_layer-Published :
      (digest : Text) (s : Stack) (n : ℕ)
      → has (layer_path id) s.dirs ≡ false
      → Published f.sync_manifest s active
          (write_layer f active id digest size (record s { next_unique = n }))
  unfolding write_layer
  write_layer-Published digest s n new = elim (Bool-cases f.create_staging) [
    | inl a ↦ rw (a, write_layer) (refused _ _ refl refl refl (λ _. λ h. h))
    | inr a ↦ elim (Bool-cases (f.write_layer || f.rename)) [
      | inl b ↦ rw (a, b, write_layer) (refused _ _ refl refl refl (λ _. λ h. h))
      | inr b ↦ elim (Bool-cases f.fsync_parent) [
        | inl c ↦ rw (a, b, c, write_layer) (refused _ _ refl refl refl (Held-cons _ s.dirs))
        | inr c ↦ elim (Bool-cases f.write_digest) [
          | inl d ↦
              rw (a, b, c, d, write_layer)
                (refused _ _ refl refl refl (Held-discarded _ s.dirs new))
          | inr d ↦ elim (Bool-cases f.sync_digest) [
            | inl x ↦
                rw (a, b, c, d, x, write_layer)
                  (refused _ _ refl refl refl (Held-discarded _ s.dirs new))
            | inr x ↦
                rw (a, b, c, d, x, write_layer)
                  (install-Published s
                    (record s {
                      staging = dropped id s.staging;
                      dirs = layer_path id ∷ s.dirs;
                      digests = inserted id digest s.digests;
                      next_unique = n;
                    })
                    refl refl refl refl new)
          ]
        ]
      ]
    ]
  ]

module _ (f : Faults) (active : Manifest) (size : ℕ) (s : Stack) where
  allocated_Recounted :
      (v : ℕ) → (n : ℕ) × ((allocate_layer_dirs b'L' v s).1 ≡ record s { next_unique = n })
  unfolding allocate_layer_dirs
  allocated_Recounted v = allocate_from-Recounted 100 b'L' v s

  allocated_fresh :
      (v : ℕ) (id : Text)
      → (allocate_layer_dirs b'L' v s).0 ≡ some id
      → has (layer_path id) s.dirs ≡ false
  unfolding allocate_layer_dirs
  allocated_fresh v id h = allocate_from-fresh 100 b'L' v s id h

  placed :
      (digest : Text) (found : Option Text) (t : Stack)
      → (n : ℕ) × (t ≡ record s { next_unique = n })
      → ((id : Text) → found ≡ some id → has (layer_path id) s.dirs ≡ false)
      → Published f.sync_manifest s active
          (elim found as (λ _. Result PublishLayerOutcome × Stack) [
            | none ↦ (err layer_id_allocation, t)
            | some id ↦ write_layer f active id digest size t
          ])
  placed digest none t (n, e) new = rw e (refused _ _ refl refl refl (λ _. λ h. h))
  placed digest (some id) t (n, e) new =
      rw e (write_layer-Published f active id size digest s n (new id refl))

  -- A publish on a manifest `active` ends in an error that leaves the manifest, the leases, the
  -- substitutions and all that is held as they were, or in no change, or it puts one new layer in a
  -- folder that was not there on top of `active`, and then `active` is the manifest of the stack. Only
  -- where the sync after the manifest's rename fails, it ends in an error with the new manifest in place
  -- and the folder of the new layer removed; then it does not end in success.
  pub publish_layer_unlocked-Published :
      (digest : Option Text)
      → Published f.sync_manifest s active (publish_layer_unlocked f active digest size s)
  unfolding publish_layer_unlocked
  publish_layer_unlocked-Published none = refused _ _ refl refl refl (λ _. λ h. h)
  publish_layer_unlocked-Published (some digest) =
      elim (Bool-cases (head_refused f active.layers)) [
        | inl a ↦ rw (a, publish_layer_unlocked) (refused _ _ refl refl refl (λ _. λ h. h))
        | inr a ↦
            elim (Bool-cases (same_digest (head_layer_digest active.layers s.digests) digest)) [
              | inl b ↦ rw (a, b, publish_layer_unlocked) unchanged
              | inr b ↦ elim (Bool-cases f.failpoint) [
                | inl c ↦
                    rw (a, b, c, publish_layer_unlocked) (refused _ _ refl refl refl (λ _. λ h. h))
                | inr c ↦
                    rw (a, b, c, publish_layer_unlocked)
                      (placed digest (allocate_layer_dirs b'L' (active.version + 1) s).0
                        (allocate_layer_dirs b'L' (active.version + 1) s).1
                        (allocated_Recounted (active.version + 1))
                        (allocated_fresh (active.version + 1)))
              ]
            ]
      ]

pub has-own : (p : Text) (dirs : List Text) → has p (p ∷ dirs) ≡ true
unfolding has
has-own p dirs = ground (arith, text_eq_iff p p)

-- A publish that ends in any of the ways above keeps what is held, and holds the new layer too.
pub Published-IsSafe :
    (unsyncs : Bool) (s : Stack) (active : Manifest) (r : Result PublishLayerOutcome × Stack)
    → Published unsyncs s active r
    → unsyncs ≡ false
    → IsSafe s
    → IsSafe r.1
Published-IsSafe unsyncs s active r (refused e t m l q h) w safe = record {
  active = rw m (All-map (Held s.dirs) (Held t.dirs) s.manifest.layers h safe.active);
  leased = rw l (All-map (Held s.dirs) (Held t.dirs) _ h safe.leased);
  substituted = rw q safe.substituted;
}
Published-IsSafe unsyncs s active r unchanged w safe = safe
Published-IsSafe unsyncs s active r (unsynced id t a m l q d x) w safe = cc
Published-IsSafe unsyncs s active r (created id t a new m l q d x) w safe = record {
  active = rw m (
      (
        (refl, rw d (has-own (layer_path id) s.dirs)),
        rw (sym a) (All-map (Held s.dirs) (Held t.dirs) s.manifest.layers more safe.active),
      ));
  leased = rw l (All-map (Held s.dirs) (Held t.dirs) _ more safe.leased);
  substituted = rw q safe.substituted;
}
  where
    more : (l : LayerRef) → Held s.dirs l → Held t.dirs l
    more l h = (h.0, rw d (Held-cons (layer_path id) s.dirs l h).1)

pub publish_layer-IsSafe :
    (f : Faults) (digest : Option Text) (size : ℕ) (s : Stack)
    → f.sync_manifest ≡ false
    → IsSafe s
    → IsSafe (publish_layer f digest size s).1
unfolding publish_layer
publish_layer-IsSafe f digest size s w safe =
    Published-IsSafe f.sync_manifest s s.manifest _
      (publish_layer_unlocked-Published f s.manifest size s digest) w safe

-- Where the sync of the storage root after the rename of the manifest fails, a publish that changes the
-- manifest fails with an error and leaves a manifest that names a layer whose folder is gone.
pub publish_layer-dangles :
    (f : Faults) (digest : Option Text) (size : ℕ) (s : Stack)
    → f.sync_manifest ≡ true
    → ((publish_layer f digest size s).1.manifest ≡ s.manifest → ⊥)
    → ((publish_layer f digest size s).0 ≡ err io) × (IsSafe (publish_layer f digest size s).1 → ⊥)
unfolding publish_layer
publish_layer-dangles f digest size s sync changed =
    ended (publish_layer_unlocked f s.manifest digest size s)
      (publish_layer_unlocked-Published f s.manifest size s digest) sync changed
  where
    gone :
        (id : Text) → has (layer_path id) (dropped (layer_path id) (layer_path id ∷ s.dirs)) ≡ false
    gone id = ground (
      arith,
      has-dropped (layer_path id) (layer_path id) (layer_path id ∷ s.dirs),
      text_eq_iff (layer_path id) (layer_path id),
    )

    differ : true ≡ false → ⊥
    differ p = cc

    no_folder :
        (id : Text) (dirs : List Text)
        → dirs ≡ dropped (layer_path id) (layer_path id ∷ s.dirs)
        → has (layer_path id) dirs ≡ true
        → ⊥
    no_folder id dirs d h = let g = gone id in differ (sym h ∙ (ap (has (layer_path id)) d ∙ g))

    ended :
        (r : Result PublishLayerOutcome × Stack)
        → Published f.sync_manifest s s.manifest r
        → f.sync_manifest ≡ true
        → (r.1.manifest ≡ s.manifest → ⊥)
        → (r.0 ≡ err io) × (IsSafe r.1 → ⊥)
    ended r (refused e t m l q h) w n = absurd (n m)
    ended r unchanged w n = absurd (n refl)
    ended r (created id t a new m l q d x) w n = absurd (differ (sym w ∙ x))
    ended r (unsynced id t a m l q d x) w n = (
      refl,
      λ safe.
          no_folder id t.dirs d
            (subst (λ (k : Manifest). All (Held t.dirs) k.layers) m safe.active).0.1,
    )
