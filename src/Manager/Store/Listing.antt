-- ===== src/Manager/Store/Listing.antt =====
-- crates/sandbox-manager/src/store.rs: the records in the order of their ids, which `list` returns and
-- the registry holds, do not depend on the order of the map.
use ephemeral_sandbox.Prelude.{
  ◌≡◌, refl, sym, ap, ap₂, ◌∙◌, subst, true, false, Bool-cases, inl, inr, Option, none, some, List,
  [], ◌∷◌, arith, All, All-map, text_eq, text_eq_refl, text_eq→eq, text_eq_iff, text_lt,
  text_lt_irrefl, text_lt_trans, text_lt_connex, find, if◌then◌else◌,
}
use ephemeral_sandbox.Layers.Changes.{lookup}
use ephemeral_sandbox.Manager.Model.{SandboxId, SandboxRecord}
use ephemeral_sandbox.Manager.Store.{Records, placed, sorted, values, listing}

-- Each record stands under its id, and no id stands twice.
abbrev pub Keyed : Records → Type 0
Keyed [] = Unit
Keyed ((id, r) ∷ rest) = (id ≡ r.id) × (find id rest ≡ none) × Keyed rest

abbrev pub by_id : SandboxId → List SandboxRecord → Option SandboxRecord
by_id = lookup (λ r. r.id)

-- Strictly ascending ids.
abbrev pub IsSorted : List SandboxRecord → Type 0
IsSorted [] = Unit
IsSorted (r ∷ rest) = All (λ s. text_lt r.id s.id ≡ true) rest × IsSorted rest

by_id-values : (id : SandboxId) (m : Records) → Keyed m → by_id id (values m) ≡ find id m
unfolding values find lookup
by_id-values id [] h = refl
by_id-values id ((key, r) ∷ m) h = rw (← h.0, by_id-values id m h.2)

by_id-placed :
    (id : SandboxId) (r : SandboxRecord) (rs : List SandboxRecord)
    → by_id id (placed r rs) ≡ (if text_eq r.id id then some r else by_id id rs)
unfolding placed lookup
by_id-placed id r [] = refl
by_id-placed id r (s ∷ rs) =
    ground
      (arith, by_id-placed id r rs, text_eq_iff r.id id, text_eq_iff s.id id, text_lt_irrefl id)

All-placed :
    (P : SandboxRecord → Type 0) (r : SandboxRecord) (rs : List SandboxRecord)
    → P r
    → All P rs
    → All P (placed r rs)
unfolding placed
All-placed P r [] p h = (p, tt)
All-placed P r (s ∷ rs) p h = elim (Bool-cases (text_lt s.id r.id)) [
  | inl e ↦ rw e (h.0, All-placed P r rs p h.1)
  | inr e ↦ rw e (p, h)
]

placed-IsSorted :
    (r : SandboxRecord) (rs : List SandboxRecord)
    → by_id r.id rs ≡ none
    → IsSorted rs
    → IsSorted (placed r rs)
unfolding placed lookup
placed-IsSorted r [] new h = (tt, tt)
placed-IsSorted r (s ∷ rs) new h = elim (Bool-cases (text_eq s.id r.id)) [
  | inl same ↦ absurd (some-none (rw (same, lookup) at new))
  | inr other ↦ elim (Bool-cases (text_lt s.id r.id)) [
    | inl e ↦ rw e (
      All-placed (λ t. text_lt s.id t.id ≡ true) r rs e h.0,
      placed-IsSorted r rs (rw (other, lookup) at new) h.1,
    )
    | inr e ↦
        let below : text_lt r.id s.id ≡ true =
          ground (arith, text_lt_connex s.id r.id, text_eq_iff s.id r.id) in
        rw e (
          (
            below,
            All-map (λ t. text_lt s.id t.id ≡ true) (λ t. text_lt r.id t.id ≡ true) rs
                (λ t later. text_lt_trans r.id s.id t.id below later) h.0,
          ),
          h,
        )
  ]
]
  where
    some-none : some s ≡ none → ⊥
    some-none e = cc

-- What `list` returns has strictly ascending ids, and holds under each id the record of the map.
pub listing-IsSorted :
    (m : Records)
    → Keyed m
    → IsSorted (listing m) × ((id : SandboxId) → by_id id (listing m) ≡ find id m)
unfolding listing sorted values find lookup
listing-IsSorted [] h = (tt, λ _. refl)
listing-IsSorted ((key, r) ∷ m) h =
    let ih = listing-IsSorted m h.2 in
    (
      placed-IsSorted r (sorted (values m)) (ih.1 r.id ∙ rw (← h.0) h.1) ih.0,
      λ id. by_id-placed id r (sorted (values m)) ∙ rw (h.0, ih.1 id),
    )

-- Below all that is listed.
by_id_above :
    (a id : SandboxId) (rs : List SandboxRecord) (r : SandboxRecord)
    → All (λ s. text_lt a s.id ≡ true) rs
    → by_id id rs ≡ some r
    → text_lt a id ≡ true
unfolding lookup
by_id_above a id [] r h e = cc
by_id_above a id (s ∷ rs) r h e =
    ground (arith, by_id_above a id rs r h.1, text_eq_iff s.id id, h.0)

-- A record that is not the head of a sorted list lies above the head.
behind_head :
    (x y : SandboxRecord) (xs : List SandboxRecord)
    → IsSorted (x ∷ xs)
    → text_eq x.id y.id ≡ false
    → by_id y.id (x ∷ xs) ≡ some y
    → text_lt x.id y.id ≡ true
unfolding lookup
behind_head x y xs h other e = by_id_above x.id y.id xs y h.0 (rw (other, lookup) at e)

pub not_among :
    (a : SandboxId) (rs : List SandboxRecord)
    → All (λ s. text_lt a s.id ≡ true) rs
    → by_id a rs ≡ none
unfolding lookup
not_among a [] h = refl
not_among a (s ∷ rs) h =
    ground (arith, not_among a rs h.1, text_eq_iff s.id a, text_lt_irrefl a, h.0)

by_id-head : (x : SandboxRecord) (xs : List SandboxRecord) → by_id x.id (x ∷ xs) ≡ some x
unfolding lookup
by_id-head x xs = rw (text_eq_refl x.id)

same_head :
    (x y : SandboxRecord) (xs ys : List SandboxRecord)
    → IsSorted (x ∷ xs)
    → IsSorted (y ∷ ys)
    → ((id : SandboxId) → by_id id (x ∷ xs) ≡ by_id id (y ∷ ys))
    → x ≡ y
unfolding lookup
same_head x y xs ys h k same = elim (Bool-cases (text_eq x.id y.id)) [
  | inl e ↦ ground (arith, same x.id, by_id-head x xs, text_eq_iff x.id y.id, text_eq_iff y.id x.id)
  | inr e ↦ absurd (
      ground (
        arith,
        behind_head x y xs h e (same y.id ∙ by_id-head y ys),
        behind_head y x ys k (ground (arith, text_eq_iff x.id y.id, text_eq_iff y.id x.id))
            (sym (same x.id) ∙ by_id-head x xs),
        text_lt_trans x.id y.id x.id,
        text_lt_irrefl x.id,
      ))
]

same_tail :
    (x : SandboxRecord) (xs ys : List SandboxRecord) (id : SandboxId)
    → IsSorted (x ∷ xs)
    → IsSorted (x ∷ ys)
    → by_id id (x ∷ xs) ≡ by_id id (x ∷ ys)
    → by_id id xs ≡ by_id id ys
unfolding lookup
same_tail x xs ys id h k e = elim (Bool-cases (text_eq x.id id)) [
  | inl own ↦
      let at = text_eq→eq x.id id own in
      subst (λ i. by_id i xs ≡ by_id i ys) at (not_among x.id xs h.0 ∙ sym (not_among x.id ys k.0))
  | inr other ↦ rw (other, lookup) at e
]

sorted_unique :
    (xs ys : List SandboxRecord)
    → IsSorted xs
    → IsSorted ys
    → ((id : SandboxId) → by_id id xs ≡ by_id id ys)
    → xs ≡ ys
unfolding lookup
sorted_unique [] [] h k same = refl
sorted_unique [] (y ∷ ys) h k same = ground (arith, same y.id, by_id-head y ys)
sorted_unique (x ∷ xs) [] h k same = ground (arith, same x.id, by_id-head x xs)
sorted_unique (x ∷ xs) (y ∷ ys) h k same =
    let e = same_head x y xs ys h k same in
    let k' : IsSorted (x ∷ ys) = subst (λ z. IsSorted (z ∷ ys)) (sym e) k in
    ap₂ ◌∷◌ e (
      sorted_unique xs ys h.1 k.1
        λ id. same_tail x xs ys id h k' (same id ∙ ap (λ z. by_id id (z ∷ ys)) (sym e)))

-- Two maps that hold the same record under each id are listed alike, in whatever order they are.
pub listing_unique :
    (m n : Records)
    → Keyed m
    → Keyed n
    → ((id : SandboxId) → find id m ≡ find id n)
    → listing m ≡ listing n
listing_unique m n h k same =
    let a = listing-IsSorted m h in
    let b = listing-IsSorted n k in
    sorted_unique (listing m) (listing n) a.0 b.0 (λ id. a.1 id ∙ same id ∙ sym (b.1 id))
