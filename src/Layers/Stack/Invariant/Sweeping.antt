-- ===== src/Layers/Stack/Invariant/Sweeping.antt =====
-- stack/lease/cleanup.rs: the sweep at boot, when there is no lease, keeps the active layers.
use ephemeral_sandbox.Prelude.{
  ◌≡◌, refl, sym, ap, false, ◌||◌, List, [], ◌∷◌, map, arith, All, Text, text_eq_iff, has,
  Bool-cases, Option-cases, inl, inr, length, ◌==◌, subst,
}
use ephemeral_sandbox.Layers.Model.{
  LayerRef, layer_path, layer_eq, layer_eq_iff, contains, starts_with, base_layer_prefix,
}
use ephemeral_sandbox.Layers.Leases.{leased_layers}
use ephemeral_sandbox.Layers.Stack.{Stack, Faults, Result, ok, err}
use ephemeral_sandbox.Layers.Stack.Collect.{
  remove_layers, swept, sweepable, SweepReport, sweep_storage_locked,
}
use ephemeral_sandbox.Layers.Stack.Invariant.{IsSafe}
use ephemeral_sandbox.Layers.Stack.Invariant.Collecting.{Free, remove_layers-IsSafe}

-- A layer of a list has its id among the list's ids.
contains-has :
    (ls : List LayerRef) (l : LayerRef)
    → has l.layer_id (map (λ m. m.layer_id) ls) ≡ false
    → contains ls l ≡ false
unfolding contains has
contains-has [] l h = refl
contains-has (m ∷ ls) l h = elim (Bool-cases (layer_eq m l)) [
  | inl e ↦ absurd (
      ground (
        arith,
        text_eq_iff m.layer_id l.layer_id,
        ap (λ (r : LayerRef). r.layer_id) ((layer_eq_iff m l).0 e),
      ))
  | inr e ↦ rw (e, contains) (contains-has ls l (ground arith))
]

sweepable-Free :
    (ids : List Text) (active : List LayerRef)
    → All (Free active []) (sweepable (map (λ l. l.layer_id) active) ids)
unfolding sweepable contains
sweepable-Free [] active = tt
sweepable-Free (id ∷ ids) active = elim (Bool-cases (has id (map (λ l. l.layer_id) active))) [
  | inl a ↦ rw (a, sweepable) (sweepable-Free ids active)
  | inr a ↦ elim (Bool-cases (starts_with id base_layer_prefix)) [
    | inl b ↦ rw (a, b, sweepable) (sweepable-Free ids active)
    | inr b ↦
        rw (a, b, sweepable)
          ((
            (refl, contains-has active (record { layer_id = id; path = layer_path id }) a, refl),
            sweepable-Free ids active,
          ))
  ]
]

swept-IsSafe :
    (f : Faults) (removed : List Text) (t : Stack) → IsSafe t → IsSafe (swept f removed t).1
unfolding swept
swept-IsSafe f removed t h = elim (Option-cases f.staging_stops) [
  | inl e ↦
      rw (e, swept) (record { active = h.active; leased = h.leased; substituted = h.substituted })
  | inr (n, e) ↦
      rw (e, swept) (record { active = h.active; leased = h.leased; substituted = h.substituted })
]

settled :
    (f : Faults) (r : Result (Unit {0})) (t : Stack) (removed : List Text)
    → IsSafe t
    → IsSafe (
        (elim r as (λ _. Result SweepReport × Stack) [
          | err e ↦ (err e, t)
          | ok _ ↦ swept f removed t
        ]).1)
settled f (err _) t removed h = h
settled f (ok _) t removed h = swept-IsSafe f removed t h

pub sweep_storage_locked-IsSafe :
    (f : Faults) (ids : List Text) (s : Stack)
    → s.leases ≡ []
    → IsSafe s
    → IsSafe (sweep_storage_locked f ids s).1
unfolding sweep_storage_locked leased_layers
sweep_storage_locked-IsSafe f ids s none_leased safe =
    elim (Bool-cases (s.manifest.version == 0 || length s.manifest.layers == 0)) [
      | inl a ↦ rw (a, sweep_storage_locked) safe
      | inr a ↦
          rw (a, sweep_storage_locked)
            (settled f (remove_layers f removable s).0 (remove_layers f removable s).1 _ (
              remove_layers-IsSafe f removable s
                (subst (λ ls. All (Free s.manifest.layers (leased_layers ls)) removable)
                  (sym none_leased) (sweepable-Free ids s.manifest.layers))
                safe))
    ]
  where
    removable : List LayerRef
    removable = sweepable (map (λ l. l.layer_id) s.manifest.layers) ids
