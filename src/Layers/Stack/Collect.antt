-- ===== src/Layers/Stack/Collect.antt =====
-- stack/lease/cleanup.rs: the release of a lease with its garbage collection, and the boot sweep.
use ephemeral_sandbox.Prelude.{
  drop, ℕ, Bool, true, false, ◌&&◌, ◌||◌, not, Option, none, some, List, [], ◌∷◌, ◌++◌, map, Text,
  text_eq, has, dropped, find, erased, if◌then◌else◌, length, ◌==◌,
}
use ephemeral_sandbox.Layers.Model.{LayerRef, contains, starts_with, base_layer_prefix, layer_path}
use ephemeral_sandbox.Layers.Leases.{LeaseRegistry, release, leased_layers}
use ephemeral_sandbox.Layers.Stack.{Stack, Result, ok, err, Faults, bad_layer_ref, io}

-- The layers of a released lease that neither the active manifest nor another lease holds.
unfoldable pub unreferenced_layers : List LayerRef → List LayerRef → LeaseRegistry → List LayerRef
unfolding contains leased_layers
unreferenced_layers [] active leases = []
unreferenced_layers (l ∷ candidates) active leases =
    let rest = unreferenced_layers candidates active leases in
    if not (contains active l) && not (contains (leased_layers leases) l) then l ∷ rest else rest

-- `Path::components().any(|part| part == "..")`: `part` is the part read so far.
pub has_parent_part : Text → Text → Bool
unfolding text_eq
has_parent_part part [] = text_eq part (b'.' ∷ b'.' ∷ [])
has_parent_part part (c ∷ cs) = elim (c == b'/') [
  | true ↦ text_eq part (b'.' ∷ b'.' ∷ []) || has_parent_part [] cs
  | false ↦ has_parent_part (part ++ c ∷ []) cs
]

pub has_code : ℕ → Text → Bool
has_code k [] = false
has_code k (c ∷ cs) = c == k || has_code k cs

-- `check_layer_path`.
unfoldable pub path_ok : Text → Bool
unfolding has_code has_parent_part starts_with
path_ok [] = false
path_ok (c ∷ cs) =
    not (has_code 0 (c ∷ cs))
    && not (starts_with (c ∷ cs) b'/')
    && not (has_parent_part [] (c ∷ cs))

-- `validate_layer_ref`.
unfoldable pub layer_ref_ok : LayerRef → Bool
unfolding path_ok
layer_ref_ok l = not (text_eq l.layer_id []) && path_ok l.path

-- The folder of a layer, then its digest and its bytes, up to the first that is not removed.
unfoldable pub remove_layer : Faults → LayerRef → Stack → Stack
unfolding dropped erased
remove_layer f l s = record s {
  dirs = dropped l.path s.dirs;
  digests = if f.keeps_digest l.layer_id then s.digests else erased l.layer_id s.digests;
  sizes =
      if f.keeps_digest l.layer_id
      then s.sizes
      else if f.keeps_bytes l.layer_id
      then s.sizes
      else erased l.layer_id s.sizes;
}

unfoldable pub sidecar_stays : Faults → LayerRef → Bool
sidecar_stays f l = f.keeps_digest l.layer_id || f.keeps_bytes l.layer_id

-- Stops at the first layer that is refused; what is removed by then stays removed.
unfoldable pub remove_layers : Faults → List LayerRef → Stack → Result (Unit {0}) × Stack
unfolding layer_ref_ok remove_layer sidecar_stays
remove_layers f [] s = (ok tt, s)
remove_layers f (l ∷ ls) s =
    let rest = remove_layers f ls (remove_layer f l s) in
    if not (layer_ref_ok l)
    then (err bad_layer_ref, s)
    else if f.keeps l.path
    then (err io, s)
    else if sidecar_stays f l
    then (err io, remove_layer f l s)
    else rest

-- `release_lease_locked`; `none` for a lease that is not known.
unfoldable pub release_lease_locked :
    Faults → Text → Stack → Result (Option (List LayerRef)) × Stack
unfolding release unreferenced_layers remove_layers
release_lease_locked f lease_id s = elim (find lease_id s.leases) [
  | none ↦ (ok none, s)
  | some lease ↦
      let s' = record s { leases = erased lease_id s.leases } in
      let removable = unreferenced_layers lease.manifest.layers s'.manifest.layers s'.leases in
      let (removed, s'') = remove_layers f removable s' in
      elim removed [ ok _ ↦ (ok (some removable), s'') | err e ↦ (err e, s'') ]
]

-- The ids of the entries of a folder that are neither kept nor a base layer's.
unfoldable pub sweepable : List Text → List Text → List LayerRef
unfolding has starts_with layer_path
sweepable keep [] = []
sweepable keep (id ∷ ids) =
    let rest = sweepable keep ids in
    if not (has id keep) && not (starts_with id base_layer_prefix)
    then record { layer_id = id; path = layer_path id } ∷ rest
    else rest

pub record SweepReport : Type 0 where
  pub removed_layer_ids : List Text
  pub removed_staging_entries : ℕ
  pub skipped : Bool

-- The entries of `staging`, the last step of the sweep.
unfoldable pub swept : Faults → List Text → Stack → Result SweepReport × Stack
swept f removed s = elim f.staging_stops [
  | some n ↦ (err io, record s { staging = drop n s.staging })
  | none ↦ (
    ok (record {
      removed_layer_ids = removed;
      removed_staging_entries = length s.staging;
      skipped = false;
    }),
    record s { staging = [] },
  )
]

-- `sweep_storage_locked`, for a manifest that can be read; `ids` are the names in `layers/` and the
-- names of the sidecars without their suffix.
unfoldable pub sweep_storage_locked : Faults → List Text → Stack → Result SweepReport × Stack
unfolding sweepable remove_layers swept
sweep_storage_locked f ids s =
    if s.manifest.version == 0 || length s.manifest.layers == 0
    then (ok (record { removed_layer_ids = []; removed_staging_entries = 0; skipped = true }), s)
    else let removable = sweepable (map (λ l. l.layer_id) s.manifest.layers) ids in
      let (removed, s') = remove_layers f removable s in
      elim removed [ err e ↦ (err e, s') | ok _ ↦ swept f (map (λ l. l.layer_id) removable) s' ]
