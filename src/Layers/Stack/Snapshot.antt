-- ===== src/Layers/Stack/Snapshot.antt =====
-- stack/mod.rs and stack/lease/rewrite.rs: snapshots, their release, and the rewritten lease.
use ephemeral_sandbox.Prelude.{
  Bool, true, false, ◌&&◌, not, Option, none, some, List, [], ◌∷◌, Text, has, if◌then◌else◌,
}
use ephemeral_sandbox.Layers.Model.{LayerRef, Manifest, layers_eq, manifest_new}
use ephemeral_sandbox.Layers.Leases.{LeaseRecord, acquire}
use ephemeral_sandbox.Layers.Squash.{contract_layers}
use ephemeral_sandbox.Layers.Stack.{
  Stack, Result, ok, err, Faults, invalid_lease_owner, unsupported_schema,
}
use ephemeral_sandbox.Layers.Stack.Collect.{release_lease_locked}

-- A lease on a manifest under a new id.
unfoldable pub acquire_on : Manifest → Text → Text → Stack → Result LeaseRecord × Stack
unfolding acquire
acquire_on manifest owner lease_id s = elim (acquire s.leases manifest owner lease_id) [
  | none ↦ (err invalid_lease_owner, s)
  | some (lease, leases) ↦ (ok lease, record s { leases = leases })
]

unfoldable pub acquire_snapshot : Text → Text → Stack → Result LeaseRecord × Stack
unfolding acquire_on
acquire_snapshot owner lease_id s = acquire_on s.manifest owner lease_id s

-- Whether the lease was known.
unfoldable pub release_lease : Faults → Text → Stack → Result Bool × Stack
unfolding release_lease_locked
release_lease f lease_id s =
    let (released, s') = release_lease_locked f lease_id s in
    elim released [
      | err e ↦ (err e, s')
      | ok found ↦ (elim found [ none ↦ ok false | some _ ↦ ok true ], s')
    ]

-- Every layer's folder is there.
unfoldable pub all_present : List LayerRef → List Text → Bool
unfolding has
all_present [] dirs = true
all_present (l ∷ ls) dirs = has l.path dirs && all_present ls dirs

-- `none` is `RewrittenLease::Identity`. The old lease is not released.
unfoldable pub acquire_rewritten_lease :
    LeaseRecord → Text → Text → Stack → Result (Option LeaseRecord) × Stack
unfolding contract_layers layers_eq all_present manifest_new acquire_on
acquire_rewritten_lease lease owner lease_id s =
    if layers_eq rewritten lease.manifest.layers
    then (ok none, s)
    else if not (all_present rewritten s.dirs)
    then (ok none, s)
    else elim (manifest_new lease.manifest.version rewritten lease.manifest.schema_version) [
      | none ↦ (err unsupported_schema, s)
      | some manifest ↦
          let (acquired, s') = acquire_on manifest owner lease_id s in
          elim acquired [ err e ↦ (err e, s') | ok replacement ↦ (ok (some replacement), s') ]
    ]
  where
    rewritten : List LayerRef
    rewritten = contract_layers lease.manifest.layers s.substitutions
