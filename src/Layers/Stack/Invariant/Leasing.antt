-- ===== src/Layers/Stack/Invariant/Leasing.antt =====
-- stack/lease: a new lease, on the active manifest or a rewritten one, names only what is held.
use ephemeral_sandbox.Prelude.{
  All-map, ◌≡◌, true, Option, some, List, [], ◌∷◌, arith, All, Text, find, Bool-cases, inl, inr,
  ◌==◌,
}
use ephemeral_sandbox.Layers.Model.{LayerRef, Manifest, layers_eq, manifest_new}
use ephemeral_sandbox.Layers.Leases.{LeaseRecord, acquire}
use ephemeral_sandbox.Layers.Squash.{contract_layers}
use ephemeral_sandbox.Layers.Squash.Elements.{contract_layers-All}
use ephemeral_sandbox.Layers.Stack.{Stack, Result, ok, err}
use ephemeral_sandbox.Layers.Stack.Snapshot.{
  acquire_on, acquire_snapshot, all_present, acquire_rewritten_lease,
}
use ephemeral_sandbox.Layers.Stack.Invariant.{Named, Held, IsSafe, leased_layers-inserted}
use ephemeral_sandbox.Layers.Stack.Invariant.Collecting.{find-All}

acquire_on-IsSafe :
    (m : Manifest) (owner id : Text) (s : Stack)
    → All (Held s.dirs) m.layers
    → IsSafe s
    → IsSafe (acquire_on m owner id s).1
unfolding acquire_on acquire
acquire_on-IsSafe m [] id s h safe = safe
acquire_on-IsSafe m (c ∷ cs) id s h safe = record {
  active = safe.active;
  leased = leased_layers-inserted (Held s.dirs) id _ s.leases h safe.leased;
  substituted = safe.substituted;
}

pub acquire_snapshot-IsSafe :
    (owner id : Text) (s : Stack) → IsSafe s → IsSafe (acquire_snapshot owner id s).1
unfolding acquire_snapshot
acquire_snapshot-IsSafe owner id s safe = acquire_on-IsSafe s.manifest owner id s safe.active safe

all_present-Held :
    (ls : List LayerRef) (dirs : List Text)
    → all_present ls dirs ≡ true
    → All Named ls
    → All (Held dirs) ls
unfolding all_present
all_present-Held [] dirs h n = tt
all_present-Held (l ∷ ls) dirs h n =
    ((n.0, ground arith), all_present-Held ls dirs (ground arith) n.1)

settled :
    (r : Result LeaseRecord) (t : Stack)
    → IsSafe t
    → IsSafe (
        (elim r as (λ _. Result (Option LeaseRecord) × Stack) [
          | err e ↦ (err e, t)
          | ok replacement ↦ (ok (some replacement), t)
        ]).1)
settled (ok _) t h = h
settled (err _) t h = h

pub acquire_rewritten_lease-IsSafe :
    (lease : LeaseRecord) (held owner id : Text) (s : Stack)
    → find held s.leases ≡ some lease
    → IsSafe s
    → IsSafe (acquire_rewritten_lease lease owner id s).1
unfolding acquire_rewritten_lease manifest_new
acquire_rewritten_lease-IsSafe lease held owner id s f safe =
    elim (Bool-cases (layers_eq rewritten lease.manifest.layers)) [
      | inl a ↦ rw (a, acquire_rewritten_lease) safe
      | inr a ↦ elim (Bool-cases (all_present rewritten s.dirs)) [
        | inr b ↦ rw (a, b, acquire_rewritten_lease) safe
        | inl b ↦ elim (Bool-cases (lease.manifest.schema_version == 1)) [
          | inr c ↦ rw (a, b, c, acquire_rewritten_lease) safe
          | inl c ↦
              rw (a, b, c, acquire_rewritten_lease)
                (settled (acquire_on next owner id s).0 (acquire_on next owner id s).1 (
                  acquire_on-IsSafe next owner id s (all_present-Held rewritten s.dirs b named)
                    safe))
        ]
      ]
    ]
  where
    rewritten : List LayerRef
    rewritten = contract_layers lease.manifest.layers s.substitutions

    next : Manifest
    next = record {
      version = lease.manifest.version;
      layers = rewritten;
      schema_version = lease.manifest.schema_version;
    }

    named : All Named rewritten
    named =
        contract_layers-All Named lease.manifest.layers s.substitutions
          (All-map (Held s.dirs) Named lease.manifest.layers (λ _. λ h. h.0)
            (find-All (Held s.dirs) held s.leases lease f safe.leased))
          safe.substituted
