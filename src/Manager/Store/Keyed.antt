-- ===== src/Manager/Store/Keyed.antt =====
-- crates/sandbox-manager/src/store.rs: the changes of the map keep every record under its id.
use ephemeral_sandbox.Prelude.{
  ◌≡◌, refl, sym, ◌∙◌, subst, Bool-cases, inl, inr, Option, none, some, List, [], ◌∷◌, arith,
  text_eq, text_eq_refl, text_eq→eq, text_eq_iff, find, erased, inserted, find-inserted,
  find-erased, if◌then◌else◌,
}
use ephemeral_sandbox.Layers.Changes.{lookup}
use ephemeral_sandbox.Layers.Changes.Aggregate.{last_with}
use ephemeral_sandbox.Manager.Model.{SandboxId, SandboxRecord, failed}
use ephemeral_sandbox.Manager.Store.{Records, collected, marked, is_orphan}
use ephemeral_sandbox.Manager.Store.Listing.{Keyed, by_id, IsSorted, not_among}

pub erased-Keyed : (id : SandboxId) (m : Records) → Keyed m → Keyed (erased id m)
unfolding erased
erased-Keyed id [] h = tt
erased-Keyed id ((key, r) ∷ m) h =
    let ih = erased-Keyed id m h.2 in
    let new : find key (erased id m) ≡ none = ground (arith, find-erased id key m, h.1) in
    elim (Bool-cases (text_eq key id)) [ inl e ↦ rw e ih | inr e ↦ rw e (h.0, new, ih) ]

pub inserted-Keyed :
    (id : SandboxId) (r : SandboxRecord) (m : Records)
    → id ≡ r.id
    → Keyed m
    → Keyed (inserted id r m)
unfolding inserted
inserted-Keyed id r m e h = (e, find-erased id id m ∙ rw (text_eq_refl id), erased-Keyed id m h)

pub find-Keyed :
    (id : SandboxId) (m : Records) (r : SandboxRecord) → Keyed m → find id m ≡ some r → r.id ≡ id
unfolding find
find-Keyed id [] r h e = cc
find-Keyed id ((key, s) ∷ m) r h e = ground (arith, find-Keyed id m r h.2, text_eq_iff key id, h.0)

pub collected-Keyed : (rs : List SandboxRecord) (m : Records) → Keyed m → Keyed (collected rs m)
unfolding collected
collected-Keyed [] m h = h
collected-Keyed (r ∷ rs) m h =
    collected-Keyed rs (inserted r.id r m) (inserted-Keyed r.id r m refl h)

-- Of several records with one id the last one is kept.
pub find-collected :
    (id : SandboxId) (rs : List SandboxRecord) (m : Records)
    → find id (collected rs m) ≡ last_with (λ r. r.id) id rs (find id m)
unfolding collected last_with
find-collected id [] m = refl
find-collected id (r ∷ rs) m =
    find-collected id rs (inserted r.id r m) ∙ rw (find-inserted r.id id r m)

last_with-sorted :
    (id : SandboxId) (rs : List SandboxRecord) (other : Option SandboxRecord)
    → IsSorted rs
    → last_with (λ r. r.id) id rs other ≡ elim (by_id id rs) [ none ↦ other | some r ↦ some r ]
unfolding last_with lookup
last_with-sorted id [] other h = refl
last_with-sorted id (r ∷ rs) other h =
    last_with-sorted id rs (if text_eq r.id id then some r else other) h.1
    ∙ elim (Bool-cases (text_eq r.id id)) [
      | inl e ↦
          let none_left : by_id id rs ≡ none =
            subst (λ i. by_id i rs ≡ none) (text_eq→eq r.id id e) (not_among r.id rs h.0) in
          ground arith
      | inr e ↦ ground arith
    ]

pub find-collected_sorted :
    (id : SandboxId) (rs : List SandboxRecord)
    → IsSorted rs
    → find id (collected rs []) ≡ by_id id rs
unfolding find
find-collected_sorted id rs h =
    find-collected id rs [] ∙ last_with-sorted id rs none h ∙ same (by_id id rs)
  where
    same : (o : Option SandboxRecord) → elim o [ none ↦ none | some r ↦ some r ] ≡ o
    same none = refl
    same (some r) = refl

-- `reconcile` marks a record in its place.
unfoldable pub mark : List SandboxId → SandboxRecord → SandboxRecord
mark recovered r = if is_orphan recovered r then record r { state = failed } else r

pub find-marked :
    (id : SandboxId) (recovered : List SandboxId) (m : Records)
    → find id (marked recovered m)
      ≡ elim (find id m) [ none ↦ none | some r ↦ some (mark recovered r) ]
unfolding marked find mark
find-marked id recovered [] = refl
find-marked id recovered ((key, r) ∷ m) = ground (arith, find-marked id recovered m)

mark-id : (recovered : List SandboxId) (r : SandboxRecord) → (mark recovered r).id ≡ r.id
unfolding mark
mark-id recovered r = ground arith

pub marked-Keyed : (recovered : List SandboxId) (m : Records) → Keyed m → Keyed (marked recovered m)
unfolding marked mark
marked-Keyed recovered [] h = tt
marked-Keyed recovered ((key, r) ∷ m) h = (
  h.0 ∙ sym (mark-id recovered r),
  find-marked key recovered m ∙ rw h.1,
  marked-Keyed recovered m h.2,
)
