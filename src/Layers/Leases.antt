-- ===== src/Layers/Leases.antt =====
-- stack/lease/registry.rs: the leases that pin manifests.
use ephemeral_sandbox.Prelude.{
  ℕ, Bool, true, false, Option, none, some, List, [], ◌∷◌, ◌++◌, length, Text, find, erased,
  inserted, if◌then◌else◌,
}
use ephemeral_sandbox.Layers.Model.{LayerRef, Manifest}

pub record LeaseRecord : Type 0 where
  pub lease_id : Text
  pub manifest : Manifest

-- `HashMap<String, LayerStackLeaseRecord>`.
abbrev pub LeaseRegistry : Type 0
LeaseRegistry = List (Text × LeaseRecord)

is_empty : Text → Bool
is_empty [] = true
is_empty (_ ∷ _) = false

-- `new_lease_id()` is the argument `lease_id`; `none` is `InvalidLeaseOwner`.
unfoldable pub acquire :
    LeaseRegistry → Manifest → Text → Text → Option (LeaseRecord × LeaseRegistry)
unfolding is_empty
acquire leases manifest owner lease_id =
    if is_empty owner then none else some (lease, inserted lease_id lease leases)
  where
    lease : LeaseRecord
    lease = record { lease_id = lease_id; manifest = manifest }

unfoldable pub release : LeaseRegistry → Text → Option LeaseRecord × LeaseRegistry
release leases lease_id = (find lease_id leases, erased lease_id leases)

-- The layers of all leases. (The source sorts them and drops duplicates; only membership is asked.)
unfoldable pub leased_layers : LeaseRegistry → List LayerRef
leased_layers [] = []
leased_layers ((_, lease) ∷ leases) = lease.manifest.layers ++ leased_layers leases

unfoldable pub active_count : LeaseRegistry → ℕ
active_count leases = length leases

-- `manifest.layers.first()`, if there is one, in front of the others.
newest : List LayerRef → List LayerRef → List LayerRef
newest [] others = others
newest (l ∷ _) others = l ∷ others

unfoldable pub lease_newest_layers : LeaseRegistry → List LayerRef
unfolding newest
lease_newest_layers [] = []
lease_newest_layers ((_, lease) ∷ leases) =
    newest lease.manifest.layers (lease_newest_layers leases)
