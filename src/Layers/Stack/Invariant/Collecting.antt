-- ===== src/Layers/Stack/Invariant/Collecting.antt =====
-- The garbage collection of stack/lease/cleanup.rs keeps every layer that is held.
use ephemeral_sandbox.Prelude.{
  All-left, All-right, All-map, ◌≡◌, Bool, true, false, Option, none, some, List, [], ◌∷◌, All,
  Text, text_eq, erased, find, Bool-cases, Option-cases, inl, inr, subst,
}
use ephemeral_sandbox.Layers.Model.{LayerRef, contains}
use ephemeral_sandbox.Layers.Leases.{LeaseRegistry, LeaseRecord, leased_layers}
use ephemeral_sandbox.Layers.Stack.{Stack, Faults, Result, ok, err}
use ephemeral_sandbox.Layers.Stack.Collect.{
  unreferenced_layers, remove_layer, sidecar_stays, remove_layers, layer_ref_ok,
  release_lease_locked,
}
use ephemeral_sandbox.Layers.Stack.Snapshot.{release_lease}
use ephemeral_sandbox.Layers.Stack.Invariant.{
  Named, Held, IsSafe, leased_layers-erased, Held-without,
}

-- A named layer that neither the active layers nor the leased ones contain.
abbrev pub Free : List LayerRef → List LayerRef → LayerRef → Type 0
Free active leased l = Named l × (contains active l ≡ false) × (contains leased l ≡ false)

pub unreferenced_layers-Free :
    (ls active : List LayerRef) (leases : LeaseRegistry)
    → All Named ls
    → All (Free active (leased_layers leases)) (unreferenced_layers ls active leases)
unfolding unreferenced_layers
unreferenced_layers-Free [] active leases h = tt
unreferenced_layers-Free (l ∷ ls) active leases h =
    let rest = unreferenced_layers-Free ls active leases h.1 in
    elim (Bool-cases (contains active l)) [
      | inl e ↦ rw (e, unreferenced_layers) rest
      | inr e ↦ elim (Bool-cases (contains (leased_layers leases) l)) [
        | inl d ↦ rw (e, d, unreferenced_layers) rest
        | inr d ↦ rw (e, d, unreferenced_layers) (((h.0, e, d), rest))
      ]
    ]

remove_layer-IsSafe :
    (f : Faults) (l : LayerRef) (s : Stack)
    → Free s.manifest.layers (leased_layers s.leases) l
    → IsSafe s
    → IsSafe (remove_layer f l s)
unfolding remove_layer
remove_layer-IsSafe f l s h safe = record {
  active = Held-without l s.dirs s.manifest.layers h.0 h.1 safe.active;
  leased = Held-without l s.dirs (leased_layers s.leases) h.0 h.2 safe.leased;
  substituted = safe.substituted;
}

pub remove_layers-IsSafe :
    (f : Faults) (ls : List LayerRef) (s : Stack)
    → All (Free s.manifest.layers (leased_layers s.leases)) ls
    → IsSafe s
    → IsSafe (remove_layers f ls s).1
unfolding remove_layers remove_layer
remove_layers-IsSafe f [] s h safe = safe
remove_layers-IsSafe f (l ∷ ls) s h safe = elim (Bool-cases (layer_ref_ok l)) [
  | inr e ↦ rw (e, remove_layers) safe
  | inl e ↦ elim (Bool-cases (f.keeps l.path)) [
    | inl k ↦ rw (e, k, remove_layers) safe
    | inr k ↦ elim (Bool-cases (sidecar_stays f l)) [
      | inl d ↦ rw (e, k, d, remove_layers) (remove_layer-IsSafe f l s h.0 safe)
      | inr d ↦
          rw (e, k, d, remove_layers)
            (remove_layers-IsSafe f ls (remove_layer f l s) h.1
              (remove_layer-IsSafe f l s h.0 safe))
    ]
  ]
]

pub find-All :
    (P : LayerRef → Type 0) (k : Text) (m : LeaseRegistry) (lease : LeaseRecord)
    → find k m ≡ some lease
    → All P (leased_layers m)
    → All P lease.manifest.layers
unfolding find leased_layers
find-All P k [] lease e h = cc
find-All P k ((j, x) ∷ m) lease e h = elim (Bool-cases (text_eq j k)) [
  | inl t ↦
      let same : some x ≡ some lease = rw (t, find) at e in
      subst (λ y. All P y.manifest.layers) (some-injective x lease same)
        (All-left P x.manifest.layers _ h)
  | inr t ↦ find-All P k m lease (rw (t, find) at e) (All-right P x.manifest.layers _ h)
]
  where
    some-injective : (x y : LeaseRecord) → some x ≡ some y → x ≡ y
    some-injective x y p = cc

module _ (f : Faults) (lease_id : Text) (s : Stack) where
  -- A release keeps every layer that the active manifest or another lease names, whether the lease
  -- is known or not and where the removal stops half-way too.
  pub release_lease_locked-IsSafe : IsSafe s → IsSafe (release_lease_locked f lease_id s).1
  unfolding release_lease_locked
  release_lease_locked-IsSafe safe = elim (Option-cases (find lease_id s.leases)) [
    | inl e ↦ rw (e, release_lease_locked) safe
    | inr (lease, e) ↦
        let removable =
          unreferenced_layers lease.manifest.layers s.manifest.layers (erased lease_id s.leases) in
        let kept =
          remove_layers-IsSafe f removable (record s { leases = erased lease_id s.leases })
            (unreferenced_layers-Free lease.manifest.layers s.manifest.layers _ (
              All-map (Held s.dirs) Named lease.manifest.layers (λ _. λ h. h.0)
                (find-All (Held s.dirs) lease_id s.leases lease e safe.leased)))
            (record {
              active = safe.active;
              leased = leased_layers-erased (Held s.dirs) lease_id s.leases safe.leased;
              substituted = safe.substituted;
            }) in
        rw (e, release_lease_locked)
          (settled (remove_layers f removable (record s { leases = erased lease_id s.leases })).0
            removable _ kept)
  ]
    where
      settled :
          (r : Result (Unit {0})) (ls : List LayerRef) (t : Stack)
          → IsSafe t
          → IsSafe (
              (elim r as (λ _. Result (Option (List LayerRef)) × Stack) [
                | ok _ ↦ (ok (some ls), t)
                | err e ↦ (err e, t)
              ]).1)
      settled (ok _) ls t h = h
      settled (err _) ls t h = h

  pub release_lease-IsSafe : IsSafe s → IsSafe (release_lease f lease_id s).1
  unfolding release_lease
  release_lease-IsSafe safe =
      settled (release_lease_locked f lease_id s).0 _ (release_lease_locked-IsSafe safe)
    where
      settled :
          (r : Result (Option (List LayerRef))) (t : Stack)
          → IsSafe t
          → IsSafe (
              (elim r as (λ _. Result Bool × Stack) [
                | err e ↦ (err e, t)
                | ok found ↦ (elim found [ none ↦ ok false | some _ ↦ ok true ], t)
              ]).1)
      settled (ok _) t h = h
      settled (err _) t h = h
