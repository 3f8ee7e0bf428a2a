-- ===== src/Manager/Store/Reconciled.antt =====
-- crates/sandbox-manager/src/store.rs: `reconcile` and `ready_ids`: which ids are returned, and what
-- the map holds afterwards.
use ephemeral_sandbox.Prelude.{
  ◌≡◌, refl, sym, ap, ◌∙◌, subst, Bool, true, false, Bool-cases, inl, inr, Option, none, some, List,
  [], ◌∷◌, arith, All, text_eq_iff, text_lt, has, find, if◌then◌else◌,
}
use ephemeral_sandbox.Layers.Changes.{lookup}
use ephemeral_sandbox.Layers.Changes.Aggregate.{last_with}
use ephemeral_sandbox.Manager.Model.{SandboxId, SandboxRecord, state_eq, ready, failed, done}
use ephemeral_sandbox.Manager.Store.{
  Codec, Records, SandboxStore, sorted, values, listing, collected, marked, orphans, is_orphan, ids,
  ready_records, ready_ids, reconcile, saved, seen,
}
use ephemeral_sandbox.Manager.Store.Listing.{Keyed, by_id, IsSorted, listing-IsSorted}
use ephemeral_sandbox.Manager.Store.Keyed.{
  mark, find-marked, find-collected, marked-Keyed, collected-Keyed,
}
use ephemeral_sandbox.Manager.Store.Persisted.{Ends, saved-Ends}
use ephemeral_sandbox.Manager.Store.Spec.{open_lock}

abbrev pub IsAscending : List SandboxId → Type 0
IsAscending [] = Unit
IsAscending (id ∷ rest) = All (λ j. text_lt id j ≡ true) rest × IsAscending rest

-- The entries whose record meets a test.
chosen : (SandboxRecord → Bool) → Records → Records
chosen p [] = []
chosen p ((id, r) ∷ m) = let rest = chosen p m in if p r then (id, r) ∷ rest else rest

-- Whether an id holds a record that meets a test.
abbrev pub meets : (SandboxRecord → Bool) → Option SandboxRecord → Bool
meets p none = false
meets p (some r) = p r

module _ (p : SandboxRecord → Bool) where
  find-chosen_missing :
      (id : SandboxId) (m : Records) → find id m ≡ none → find id (chosen p m) ≡ none
  unfolding find chosen
  find-chosen_missing id [] h = refl
  find-chosen_missing id ((key, r) ∷ m) h = ground (arith, find-chosen_missing id m)

  chosen-Keyed : (m : Records) → Keyed m → Keyed (chosen p m)
  unfolding chosen
  chosen-Keyed [] h = tt
  chosen-Keyed ((key, r) ∷ m) h = elim (Bool-cases (p r)) [
    | inl e ↦ rw e (h.0, find-chosen_missing key m h.1, chosen-Keyed m h.2)
    | inr e ↦ rw e (chosen-Keyed m h.2)
  ]

  find-chosen :
      (id : SandboxId) (m : Records)
      → Keyed m
      → find id (chosen p m)
        ≡ elim (find id m) [ none ↦ none | some r ↦ if p r then some r else none ]
  unfolding find chosen
  find-chosen id [] h = refl
  find-chosen id ((key, r) ∷ m) h =
      ground (arith, find-chosen id m h.2, h.1, text_eq_iff key id, find-chosen_missing id m)

has-ids :
    (id : SandboxId) (rs : List SandboxRecord) → has id (ids rs) ≡ meets (λ _. true) (by_id id rs)
unfolding has ids lookup
has-ids id [] = refl
has-ids id (r ∷ rs) = ground (arith, has-ids id rs, text_eq_iff r.id id, text_eq_iff id r.id)

All-ids :
    (a : SandboxId) (rs : List SandboxRecord)
    → All (λ s. text_lt a s.id ≡ true) rs
    → All (λ j. text_lt a j ≡ true) (ids rs)
unfolding ids
All-ids a [] h = tt
All-ids a (r ∷ rs) h = (h.0, All-ids a rs h.1)

ids-IsAscending : (rs : List SandboxRecord) → IsSorted rs → IsAscending (ids rs)
unfolding ids
ids-IsAscending [] h = tt
ids-IsAscending (r ∷ rs) h = (All-ids r.id rs h.0, ids-IsAscending rs h.1)

-- The sorted ids of the entries that meet a test.
picked_in_order :
    (p : SandboxRecord → Bool) (m : Records)
    → Keyed m
    → let out = ids (listing (chosen p m)) in
      IsAscending out × ((id : SandboxId) → has id out ≡ meets p (find id m))
picked_in_order p m h =
    let s = listing-IsSorted (chosen p m) (chosen-Keyed p m h) in
    (
      ids-IsAscending (listing (chosen p m)) s.0,
      λ id.
          has-ids id (listing (chosen p m))
          ∙ ap (meets (λ _. true)) (s.1 id ∙ find-chosen p id m h)
          ∙ told (find id m),
    )
  where
    told :
        (o : Option SandboxRecord)
        → meets (λ _. true) (elim o [ none ↦ none | some r ↦ if p r then some r else none ])
          ≡ meets p o
    told none = refl
    told (some r) = ground arith

orphans-eq :
    (recovered : List SandboxId) (m : Records)
    → orphans recovered m ≡ values (chosen (is_orphan recovered) m)
unfolding orphans values chosen
orphans-eq recovered [] = refl
orphans-eq recovered ((id, r) ∷ m) = elim (Bool-cases (is_orphan recovered r)) [
  | inl e ↦ rw e (ap (◌∷◌ r) (orphans-eq recovered m))
  | inr e ↦ rw e (orphans-eq recovered m)
]

ready_records-eq :
    (m : Records) → ready_records (values m) ≡ values (chosen (λ r. state_eq r.state ready) m)
unfolding ready_records values chosen
ready_records-eq [] = refl
ready_records-eq ((id, r) ∷ m) = elim (Bool-cases (state_eq r.state ready)) [
  | inl e ↦ rw e (ap (◌∷◌ r) (ready_records-eq m))
  | inr e ↦ rw e (ready_records-eq m)
]

-- The ids that are reported ready are in strictly ascending order, and are exactly those under which
-- the map holds a record in the state ready.
pub ready_ids-IsAscending :
    (store : SandboxStore) (out : List SandboxId)
    → Keyed store.records
    → ready_ids store ≡ done out
    → IsAscending out
      × ((id : SandboxId)
          → has id out ≡ meets (λ r. state_eq r.state ready) (find id store.records))
unfolding ready_ids seen listing
ready_ids-IsAscending store out keyed h =
    let read : ids (sorted (ready_records (values store.records))) ≡ out = ground arith in
    let same = ap (λ rs. ids (sorted rs)) (ready_records-eq store.records) in
    subst
      (λ o.
        IsAscending o
        × ((id : SandboxId)
            → has id o ≡ meets (λ r. state_eq r.state ready) (find id store.records)))
      (sym same ∙ read) (picked_in_order (λ r. state_eq r.state ready) store.records keyed)

-- A record with its mark, if there is one.
abbrev pub marked_content : List SandboxId → Option SandboxRecord → Option SandboxRecord
marked_content recovered none = none
marked_content recovered (some r) =
    some (if is_orphan recovered r then record r { state = failed } else r)

marked_content-eq :
    (recovered : List SandboxId) (o : Option SandboxRecord)
    → elim o [ none ↦ none | some r ↦ some (mark recovered r) ] ≡ marked_content recovered o
unfolding mark
marked_content-eq recovered none = refl
marked_content-eq recovered (some r) = refl

-- Reconciling with the recovered records ends in a map where an id of a recovered record holds the
-- last one with it, and any other id holds what it held, marked as failed; this map is saved, or
-- the write of the registry fails. The ids that are returned are in strictly ascending order, and
-- are exactly those that held a record that was not failed and is not recovered.
pub reconcile-Ends :
    (codec : Codec) (store : SandboxStore) (recovered : List SandboxRecord)
    → Keyed store.records
    → store.poisoned ≡ false
    → (m : Records) × (lost : List SandboxId) × ((id : SandboxId)
        → find id m
          ≡ last_with
              (λ r. r.id)
              id
              recovered
              (marked_content (ids recovered) (find id store.records)))
      × Keyed m
      × IsAscending lost
      × ((id : SandboxId) → has id lost ≡ meets (is_orphan (ids recovered)) (find id store.records))
      × Ends codec (record store { records = m }) lost (reconcile codec store recovered)
unfolding reconcile listing
reconcile-Ends codec store recovered keyed open_ =
    let known = ids recovered in
    let m = collected recovered (marked known store.records) in
    let lost = ids (sorted (orphans known store.records)) in
    let told =
      subst
        (λ rs.
          IsAscending (ids (sorted rs))
          × ((id : SandboxId)
              → has id (ids (sorted rs)) ≡ meets (is_orphan known) (find id store.records)))
        (sym (orphans-eq known store.records))
        (picked_in_order (is_orphan known) store.records keyed) in
    (
      m,
      lost,
      λ id.
          find-collected id recovered (marked known store.records)
          ∙ ap (last_with (λ r. r.id) id recovered) (
              find-marked id known store.records ∙ marked_content-eq known (find id store.records)),
      collected-Keyed recovered (marked known store.records)
          (marked-Keyed known store.records keyed),
      told.0,
      told.1,
      subst (Ends codec (record store { records = m }) lost)
          (sym (open_lock store (saved codec store m lost) open_)) (saved-Ends codec store m lost),
    )
