-- ===== src/Layers/Stack/Invariant/Collected.antt =====
-- stack/lease/cleanup.rs: a release that succeeds removes the folders of the lease's layers that
-- nothing else names.
use ephemeral_sandbox.Prelude.{
  ◌≡◌, refl, true, false, ◌&&◌, not, Option, some, List, [], ◌∷◌, arith, Text, text_eq_iff, has,
  dropped, has-dropped, erased, find, Bool-cases, inl, inr, subst,
}
use ephemeral_sandbox.Layers.Model.{LayerRef, layer_eq, layer_eq_iff, contains}
use ephemeral_sandbox.Layers.Leases.{LeaseRegistry, LeaseRecord, leased_layers}
use ephemeral_sandbox.Layers.Stack.{Stack, Faults, Result, ok, err, StackError}
use ephemeral_sandbox.Layers.Stack.Collect.{
  unreferenced_layers, remove_layer, sidecar_stays, remove_layers, layer_ref_ok,
  release_lease_locked,
}

-- A folder that is gone stays gone.
remove_layers-absent :
    (f : Faults) (ls : List LayerRef) (s : Stack) (p : Text)
    → has p s.dirs ≡ false
    → has p (remove_layers f ls s).1.dirs ≡ false
unfolding remove_layers remove_layer
remove_layers-absent f [] s p h = h
remove_layers-absent f (l ∷ ls) s p h = elim (Bool-cases (layer_ref_ok l)) [
  | inr e ↦ rw (e, remove_layers) h
  | inl e ↦ elim (Bool-cases (f.keeps l.path)) [
    | inl k ↦ rw (e, k, remove_layers) h
    | inr k ↦
        let gone : has p (dropped l.path s.dirs) ≡ false =
          ground (arith, has-dropped l.path p s.dirs) in
        elim (Bool-cases (sidecar_stays f l)) [
          | inl d ↦ rw (e, k, d, remove_layers) gone
          | inr d ↦
              rw (e, k, d, remove_layers) (remove_layers-absent f ls (remove_layer f l s) p gone)
        ]
  ]
]

remove_layers-removed :
    (f : Faults) (ls : List LayerRef) (s : Stack)
    → (remove_layers f ls s).0 ≡ ok tt
    → (l : LayerRef) → contains ls l ≡ true
    → has l.path (remove_layers f ls s).1.dirs ≡ false
unfolding remove_layers remove_layer contains
remove_layers-removed f [] s e l c = cc
remove_layers-removed f (m ∷ ls) s e l c = elim (Bool-cases (layer_ref_ok m)) [
  | inr a ↦ absurd (refused _ _ refl (rw (a, remove_layers) at e))
  | inl a ↦ elim (Bool-cases (f.keeps m.path)) [
    | inl k ↦ absurd (refused _ _ refl (rw (a, k, remove_layers) at e))
    | inr k ↦ elim (Bool-cases (sidecar_stays f m)) [
      | inl d ↦ absurd (refused _ _ refl (rw (a, k, d, remove_layers) at e))
      | inr d ↦ elim (Bool-cases (layer_eq m l)) [
        | inl q ↦
            rw (a, k, d, remove_layers)
              (remove_layers-absent f ls (remove_layer f m s) l.path (
                subst (λ (r : LayerRef). has r.path (dropped m.path s.dirs) ≡ false)
                  ((layer_eq_iff m l).0 q)
                  (ground (arith, has-dropped m.path m.path s.dirs, text_eq_iff m.path m.path))))
        | inr q ↦
            rw (a, k, d, remove_layers)
              (remove_layers-removed f ls (remove_layer f m s) (rw (a, k, d, remove_layers) at e) l
                (rw (q, contains) at c))
      ]
    ]
  ]
]
  where
    refused : (x : StackError) (r : Result (Unit {0})) → r ≡ err x → r ≡ ok tt → ⊥
    refused x r p q = cc

-- A layer of the list that nothing else names is among those to be removed.
unreferenced_layers-contains :
    (ls active : List LayerRef) (leases : LeaseRegistry) (l : LayerRef)
    → contains ls l ≡ true
    → contains active l ≡ false
    → contains (leased_layers leases) l ≡ false
    → contains (unreferenced_layers ls active leases) l ≡ true
unfolding unreferenced_layers contains
unreferenced_layers-contains [] active leases l c a b = c
unreferenced_layers-contains (m ∷ ls) active leases l c a b = elim (Bool-cases (layer_eq m l)) [
  | inl e ↦
      let same : m ≡ l = (layer_eq_iff m l).0 e in
      let a' : contains active m ≡ false = rw same a in
      let b' : contains (leased_layers leases) m ≡ false = rw same b in
      rw (a', b', unreferenced_layers) (rw (e, contains))
  | inr e ↦
      let rest = unreferenced_layers-contains ls active leases l (rw (e, contains) at c) a b in
      elim (Bool-cases (not (contains active m) && not (contains (leased_layers leases) m))) [
        | inl d ↦ rw (d, unreferenced_layers) (rw (e, contains) rest)
        | inr d ↦ rw (d, unreferenced_layers) rest
      ]
]

-- A release of a known lease that succeeds leaves no folder of a layer of it that neither the active
-- manifest nor another lease names.
pub release_lease_locked-collects :
    (f : Faults) (lease_id : Text) (s : Stack) (lease : LeaseRecord)
    (removed : Option (List LayerRef)) (l : LayerRef)
    → find lease_id s.leases ≡ some lease
    → (release_lease_locked f lease_id s).0 ≡ ok removed
    → contains lease.manifest.layers l ≡ true
    → contains s.manifest.layers l ≡ false
    → contains (leased_layers (erased lease_id s.leases)) l ≡ false
    → has l.path (release_lease_locked f lease_id s).1.dirs ≡ false
unfolding release_lease_locked
release_lease_locked-collects f lease_id s lease removed l found e c a b =
    rw (found, release_lease_locked)
      (settled (remove_layers f removable next).0 _ removable l.path
        (rw (found, release_lease_locked) at e)
        (λ r. remove_layers-removed f removable next r l (
          unreferenced_layers-contains lease.manifest.layers s.manifest.layers next.leases l c a
            b)))
  where
    next : Stack
    next = record s { leases = erased lease_id s.leases }

    removable : List LayerRef
    removable = unreferenced_layers lease.manifest.layers s.manifest.layers next.leases

    settled :
        (r : Result (Unit {0})) (t : Stack) (ls : List LayerRef) (p : Text)
        → (elim r as (λ _. Result (Option (List LayerRef)) × Stack) [
          | ok _ ↦ (ok (some ls), t)
          | err e ↦ (err e, t)
        ]).0
          ≡ ok removed
        → (r ≡ ok tt → has p t.dirs ≡ false)
        → has p
            ((elim r as (λ _. Result (Option (List LayerRef)) × Stack) [
              | ok _ ↦ (ok (some ls), t)
              | err e ↦ (err e, t)
            ]).1
              ).dirs
          ≡ false
    settled (ok _) t ls p h k = k refl
    settled (err _) t ls p h k = cc
