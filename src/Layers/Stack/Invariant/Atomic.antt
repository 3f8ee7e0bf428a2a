-- ===== src/Layers/Stack/Invariant/Atomic.antt =====
-- stack/squash.rs: a commit changes the manifest and the substitutions together, or neither.
use ephemeral_sandbox.Prelude.{
  ◌+◌, ◌≡◌, refl, sym, ap, ◌∙◌, ◌||◌, Bool, true, false, All, subst, if◌then◌else◌, arith,
  text_eq_iff, has, has-dropped, Option, none, some, List, [], ◌∷◌, ◌++◌, Text, text_eq, Bool-cases,
  Option-cases, inl, inr, ◌==◌, take, find, erased,
}
use ephemeral_sandbox.Layers.Model.{LayerRef, Manifest, manifest_new, layer_path}
use ephemeral_sandbox.Layers.Leases.{LeaseRegistry}
use ephemeral_sandbox.Layers.Squash.{BuiltBlock, splice_blocks, record_substitutions}
use ephemeral_sandbox.Layers.Stack.{Stack, Faults, Result, ok, err, StackError, io}
use ephemeral_sandbox.Layers.Stack.Collect.{
  unreferenced_layers, remove_layer, sidecar_stays, remove_layers, layer_ref_ok,
  release_lease_locked,
}
use ephemeral_sandbox.Layers.Stack.Commit.{
  promote, demote, undone, Committed, settle_commit, install_squash, commit_squash,
}
use ephemeral_sandbox.Layers.Stack.Invariant.Squashing.{promote-Same, demote-Same}

-- The manifest with the layers of a commit.
abbrev pub next_manifest : Manifest → List LayerRef → Manifest
next_manifest m layers = record {
  version = m.version + 1;
  layers = layers;
  schema_version = m.schema_version;
}

-- The folder of a block is not there.
abbrev pub Gone : List Text → BuiltBlock → Type 0
Gone dirs b = has (layer_path b.layer_id) dirs ≡ false

demote-absent :
    (p : Text) (built : List BuiltBlock) (s : Stack)
    → has p s.dirs ≡ false
    → has p (demote built s).dirs ≡ false
unfolding demote
demote-absent p [] s h = h
demote-absent p (b ∷ built) s h =
    demote-absent p built _ (ground (arith, has-dropped (layer_path b.layer_id) p s.dirs))

demote-Gone : (built : List BuiltBlock) (s : Stack) → All (Gone (demote built s).dirs) built
unfolding demote
demote-Gone [] s = tt
demote-Gone (b ∷ built) s = (
  demote-absent (layer_path b.layer_id) built _ (
      ground (
        arith,
        has-dropped (layer_path b.layer_id) (layer_path b.layer_id) s.dirs,
        text_eq_iff (layer_path b.layer_id) (layer_path b.layer_id),
      )),
  demote-Gone built _,
)

-- What a commit may come to: an error with the manifest, the leases and the substitutions as they
-- were; or, where the sync after the rename of the manifest fails, an error with the spliced manifest
-- in place and the folders of all its blocks removed; or the spliced manifest with the substitutions
-- of all the blocks and the plan lease gone, where the only error left is a folder that could not be
-- removed.
pub data Ends (unsyncs : Bool) (s : Stack) (plan_lease_id : Text) (built : List BuiltBlock)
    : Result Committed × Stack → Type 0 where
  refused :
      (e : StackError) (t : Stack)
      → t.manifest ≡ s.manifest
      → t.leases ≡ s.leases
      → t.substitutions ≡ s.substitutions
      → Ends unsyncs s plan_lease_id built (err e, t)
  unsynced :
      (t : Stack) (layers : List LayerRef)
      → splice_blocks s.manifest.layers built ≡ some layers
      → t.manifest ≡ next_manifest s.manifest layers
      → t.leases ≡ s.leases
      → t.substitutions ≡ s.substitutions
      → All (Gone t.dirs) built
      → unsyncs ≡ true
      → Ends unsyncs s plan_lease_id built (err io, t)
  committed :
      (r : Result Committed) (t : Stack) (layers : List LayerRef)
      → splice_blocks s.manifest.layers built ≡ some layers
      → t.manifest ≡ next_manifest s.manifest layers
      → t.leases ≡ erased plan_lease_id s.leases
      → t.substitutions ≡ s.substitutions ++ record_substitutions built
      → ((c : Committed) → r ≡ ok c → c.manifest ≡ t.manifest)
      → unsyncs ≡ false
      → Ends unsyncs s plan_lease_id built (r, t)

erased-absent : (k : Text) (m : LeaseRegistry) → find k m ≡ none → erased k m ≡ m
unfolding find erased
erased-absent k [] h = refl
erased-absent k ((j, lease) ∷ m) h = elim (Bool-cases (text_eq j k)) [
  | inl e ↦ absurd (some-none (rw (e, find) at h))
  | inr e ↦ rw (e, erased) (ap (◌∷◌ (j, lease)) (erased-absent k m (rw (e, find) at h)))
]
  where
    some-none : some lease ≡ none → ⊥
    some-none p = cc

-- What a release leaves alone, and what is left of the leases.
remove_layers-Same :
    (f : Faults) (ls : List LayerRef) (s : Stack)
    → ((remove_layers f ls s).1.manifest ≡ s.manifest)
      × ((remove_layers f ls s).1.leases ≡ s.leases)
      × ((remove_layers f ls s).1.substitutions ≡ s.substitutions)
unfolding remove_layers remove_layer
remove_layers-Same f [] s = (refl, refl, refl)
remove_layers-Same f (l ∷ ls) s = elim (Bool-cases (layer_ref_ok l)) [
  | inr e ↦ rw (e, remove_layers) ((refl, refl, refl))
  | inl e ↦ elim (Bool-cases (f.keeps l.path)) [
    | inl k ↦ rw (e, k, remove_layers) ((refl, refl, refl))
    | inr k ↦ elim (Bool-cases (sidecar_stays f l)) [
      | inl d ↦ rw (e, k, d, remove_layers) ((refl, refl, refl))
      | inr d ↦ rw (e, k, d, remove_layers) (remove_layers-Same f ls (remove_layer f l s))
    ]
  ]
]

pub Released : Text → Stack → Result (Option (List LayerRef)) × Stack → Type 0
Released id s r =
    (r.1.manifest ≡ s.manifest)
    × (r.1.leases ≡ erased id s.leases)
    × (r.1.substitutions ≡ s.substitutions)

release_lease_locked-Released :
    (f : Faults) (id : Text) (s : Stack) → Released id s (release_lease_locked f id s)
unfolding release_lease_locked Released
release_lease_locked-Released f id s = elim (Option-cases (find id s.leases)) [
  | inl e ↦ rw (e, release_lease_locked) ((refl, sym (erased-absent id s.leases e), refl))
  | inr (lease, e) ↦
      let next = record s { leases = erased id s.leases } in
      let ls = unreferenced_layers lease.manifest.layers s.manifest.layers next.leases in
      rw (e, release_lease_locked)
        (settled (remove_layers f ls next).0 (remove_layers f ls next).1 ls
          (remove_layers-Same f ls next))
]
  where
    settled :
        (r : Result (Unit {0})) (t : Stack) (ls : List LayerRef)
        → (t.manifest ≡ s.manifest)
          × (t.leases ≡ erased id s.leases)
          × (t.substitutions ≡ s.substitutions)
        → Released id s (elim r as (λ _. Result (Option (List LayerRef)) × Stack) [
          | ok _ ↦ (ok (some ls), t)
          | err e ↦ (err e, t)
        ])
    settled (ok _) t ls h = h
    settled (err _) t ls h = h

module _ (f : Faults) (plan_lease_id : Text) (built : List BuiltBlock) (s : Stack) where
  undone-Ends :
      (e : StackError) (blocks : List BuiltBlock)
      → Ends f.sync_manifest s plan_lease_id built (err e, undone blocks s)
  unfolding undone
  undone-Ends e blocks =
      let (m, l, q) = demote-Same blocks (promote blocks s) in
      let (m', l', q') = promote-Same blocks s in refused e _ (m ∙ m') (l ∙ l') (q ∙ q')

  settle_commit-Ends :
      (layers : List LayerRef)
      → splice_blocks s.manifest.layers built ≡ some layers
      → f.sync_manifest ≡ false
      → Ends f.sync_manifest s plan_lease_id built
          (settle_commit f plan_lease_id built (next_manifest s.manifest layers) (promote built s))
  unfolding settle_commit Released
  settle_commit-Ends layers e w =
      let (_, l, q) = promote-Same built s in
      let next = record (promote built s) {
        manifest = next_manifest s.manifest layers;
        substitutions = (promote built s).substitutions ++ record_substitutions built;
      } in
      let (m', l', q') = release_lease_locked-Released f plan_lease_id next in
      finished (release_lease_locked f plan_lease_id next).0 _ m' (l' ∙ ap (erased plan_lease_id) l)
        (q' ∙ ap (λ k. k ++ record_substitutions built) q)
    where
      finished :
          (r : Result (Option (List LayerRef))) (t : Stack)
          → t.manifest ≡ next_manifest s.manifest layers
          → t.leases ≡ erased plan_lease_id s.leases
          → t.substitutions ≡ s.substitutions ++ record_substitutions built
          → Ends f.sync_manifest s plan_lease_id built (elim r as (λ _. Result Committed × Stack) [
            | err x ↦ (err x, t)
            | ok removed ↦ (
              ok (record {
                manifest = next_manifest s.manifest layers;
                removed = elim removed [ none ↦ [] | some ls ↦ ls ];
              }),
              t,
            )
          ])
      finished (err x) t m l q = committed (err x) t layers e m l q (λ c. λ p. cc) w
      finished (ok removed) t m l q =
          committed _ t layers e m l q
            (λ c. λ p. sym (ap (λ (x : Committed). x.manifest) (same _ c _ refl p)) ∙ sym m) w
        where
          same : (a c : Committed) (r : Result Committed) → r ≡ ok a → r ≡ ok c → a ≡ c
          same a c r h k = cc

  unsynced-Ends :
      (layers : List LayerRef)
      → splice_blocks s.manifest.layers built ≡ some layers
      → Ends true s plan_lease_id built (
        err io,
        demote built (record (promote built s) { manifest = next_manifest s.manifest layers }),
      )
  unsynced-Ends layers e =
      let next = record (promote built s) { manifest = next_manifest s.manifest layers } in
      let (m, l, q) = demote-Same built next in
      let (_, l', q') = promote-Same built s in
      unsynced _ layers e m (l ∙ l') (q ∙ q') (demote-Gone built next) refl

  -- From the rename of the manifest on.
  written-Ends :
      (layers : List LayerRef) (w : Bool)
      → splice_blocks s.manifest.layers built ≡ some layers
      → f.sync_manifest ≡ w
      → Ends f.sync_manifest s plan_lease_id built (
          if w
          then (
            err io,
            demote built (record (promote built s) { manifest = next_manifest s.manifest layers }),
          )
          else settle_commit f plan_lease_id built
              (next_manifest s.manifest layers)
              (promote built s))
  written-Ends layers true e w =
      subst
        (λ k. Ends k s plan_lease_id built (
          err io,
          demote built (record (promote built s) { manifest = next_manifest s.manifest layers }),
        ))
        (sym w) (unsynced-Ends layers e)
  written-Ends layers false e w = settle_commit-Ends layers e w

  -- A commit ends in an error with the manifest, the leases and the substitutions as they were, or in
  -- the spliced manifest at the next version, with the substitutions of all its blocks added and the
  -- plan lease gone, and then a result that it returns names that manifest. Only where the sync after
  -- the manifest's rename fails, it ends in an error with the spliced manifest in place and the folders
  -- of its blocks removed; then it does not commit.
  pub commit_squash-Ends :
      Ends f.sync_manifest s plan_lease_id built (commit_squash f plan_lease_id built s)
  unfolding commit_squash manifest_new install_squash
  commit_squash-Ends = elim (Option-cases (splice_blocks s.manifest.layers built)) [
    | inl a ↦ rw (a, commit_squash) (refused _ _ refl refl refl)
    | inr (layers, a) ↦ elim (Bool-cases (s.manifest.schema_version == 1)) [
      | inr b ↦ rw (a, b, commit_squash) (refused _ _ refl refl refl)
      | inl b ↦ elim (Option-cases f.rename_stops) [
        | inr (n, c) ↦ rw (a, b, c, commit_squash, install_squash) (undone-Ends _ (take n built))
        | inl c ↦ elim (Bool-cases (f.sync_root || f.write_manifest)) [
          | inl d ↦ rw (a, b, c, d, commit_squash, install_squash) (undone-Ends _ built)
          | inr d ↦
              rw (a, b, c, d, commit_squash, install_squash)
                (written-Ends layers f.sync_manifest a refl)
        ]
      ]
    ]
  ]
