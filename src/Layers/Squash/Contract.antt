-- ===== src/Layers/Squash/Contract.antt =====
-- stack/lease/rewrite.rs: a rewritten lease is the old one with runs written as their squashed layers.
use ephemeral_sandbox.Prelude.{
  ◌≡◌, refl, sym, ap, ap₂, ◌∙◌, true, false, some, List, [], ◌∷◌, ◌++◌, All, Bool-cases,
  Option-cases, inl, inr, subst,
}
use ephemeral_sandbox.Layers.Model.{LayerRef, layer_eq, layer_eq_iff, contains}
use ephemeral_sandbox.Layers.Squash.{replace_run, SubstitutionRecord, contract_layers}
use ephemeral_sandbox.Layers.Squash.Runs.{replace_run-parts}
use mathlib.Core.List.{append_assoc}
use ephemeral_sandbox.Layers.Squash.Elements.{All-split, replace_run-All}

-- Each occurrence of the squashed layer written as its run.
undo : SubstitutionRecord → List LayerRef → List LayerRef
undo r [] = []
undo r (l ∷ ls) = elim (layer_eq l r.s_layer) [
  | true ↦ r.raw_run ++ undo r ls
  | false ↦ l ∷ undo r ls
]

-- All records undone, the last first.
pub written_out : List SubstitutionRecord → List LayerRef → List LayerRef
unfolding undo
written_out [] ls = ls
written_out (r ∷ records) ls = undo r (written_out records ls)

-- No squashed layer is in the list, nor is it the squashed layer of an earlier record.
abbrev pub Unused : List LayerRef → List SubstitutionRecord → Type 0
Unused ls [] = Unit
Unused ls (r ∷ records) = (contains ls r.s_layer ≡ false) × Unused (r.s_layer ∷ ls) records

undo-append :
    (r : SubstitutionRecord) (xs ys : List LayerRef) → undo r (xs ++ ys) ≡ undo r xs ++ undo r ys
unfolding undo
undo-append r [] ys = refl
undo-append r (x ∷ xs) ys = elim (Bool-cases (layer_eq x r.s_layer)) [
  | inl e ↦
      rw (e, undo)
        (ap (◌++◌ r.raw_run) (undo-append r xs ys)
          ∙ sym (append_assoc r.raw_run (undo r xs) (undo r ys)))
  | inr e ↦ rw (e, undo) (ap (◌∷◌ x) (undo-append r xs ys))
]

pub contains→All :
    (ls : List LayerRef) (x : LayerRef) → contains ls x ≡ false → All (λ l. layer_eq l x ≡ false) ls
unfolding contains
contains→All [] x h = tt
contains→All (l ∷ ls) x h = elim (Bool-cases (layer_eq l x)) [
  | inl e ↦ absurd (true-false (rw (e, contains) at h))
  | inr e ↦ (e, contains→All ls x (rw (e, contains) at h))
]
  where
    true-false : true ≡ false → ⊥
    true-false p = cc

pub All→contains :
    (ls : List LayerRef) (x : LayerRef) → All (λ l. layer_eq l x ≡ false) ls → contains ls x ≡ false
unfolding contains
All→contains [] x h = refl
All→contains (l ∷ ls) x h = rw (h.0, contains) (All→contains ls x h.1)

undo-unused :
    (r : SubstitutionRecord) (ls : List LayerRef)
    → All (λ l. layer_eq l r.s_layer ≡ false) ls
    → undo r ls ≡ ls
unfolding undo
undo-unused r [] h = refl
undo-unused r (l ∷ ls) h = rw (h.0, undo) (ap (◌∷◌ l) (undo-unused r ls h.1))

-- One run replaced and written out again.
undo-replace_run :
    (r : SubstitutionRecord) (layers out : List LayerRef)
    → replace_run layers r.raw_run r.s_layer ≡ some out
    → contains layers r.s_layer ≡ false
    → undo r out ≡ layers
unfolding undo
undo-replace_run r layers out e h =
    let (before, after, l, o, _) = replace_run-parts layers r.raw_run r.s_layer out e in
    let other =
      subst (λ ls. All (λ m. layer_eq m r.s_layer ≡ false) ls) l
        (contains→All layers r.s_layer h) in
    let (b, rest) =
      All-split (λ m. layer_eq m r.s_layer ≡ false) before (r.raw_run ++ after) other in
    let a = (All-split (λ m. layer_eq m r.s_layer ≡ false) r.raw_run after rest).1 in
    ap (undo r) o
    ∙ (undo-append r before (r.s_layer ∷ after)
        ∙ (ap₂ ◌++◌ (undo-unused r before b) (
              rw ((layer_eq_iff r.s_layer r.s_layer).1 refl, undo)
                (ap (◌++◌ r.raw_run) (undo-unused r after a)))
            ∙ sym l))

pub Unused-sub :
    (ls ms : List LayerRef) (records : List SubstitutionRecord)
    → ((x : LayerRef) → contains ls x ≡ false → contains ms x ≡ false)
    → Unused ls records
    → Unused ms records
unfolding contains
Unused-sub ls ms [] h u = tt
Unused-sub ls ms (r ∷ records) h u =
    (h r.s_layer u.0, Unused-sub (r.s_layer ∷ ls) (r.s_layer ∷ ms) records more u.1)
  where
    more :
        (x : LayerRef) → contains (r.s_layer ∷ ls) x ≡ false → contains (r.s_layer ∷ ms) x ≡ false
    more x k = All→contains (r.s_layer ∷ ms) x (
      (contains→All (r.s_layer ∷ ls) x k).0,
      contains→All ms x (h x (All→contains ls x (contains→All (r.s_layer ∷ ls) x k).1)),
    )

-- A contraction by records whose squashed layers are unused loses nothing: with the records written
-- out again, the last first, it is the list that it was made from.
pub contract_layers-written_out :
    (layers : List LayerRef) (records : List SubstitutionRecord)
    → Unused layers records
    → written_out records (contract_layers layers records) ≡ layers
unfolding contract_layers written_out
contract_layers-written_out layers [] u = refl
contract_layers-written_out layers (r ∷ records) u =
    elim (Option-cases (replace_run layers r.raw_run r.s_layer)) [
      | inl e ↦
          rw (e, contract_layers)
            (ap (undo r) (
                contract_layers-written_out layers records (
                  Unused-sub (r.s_layer ∷ layers) layers records
                    (λ x. λ k. All→contains layers x (contains→All (r.s_layer ∷ layers) x k).1)
                    u.1))
              ∙ undo-unused r layers (contains→All layers r.s_layer u.0))
      | inr (next, e) ↦
          rw (e, contract_layers)
            (ap (undo r) (
                contract_layers-written_out next records
                  (Unused-sub (r.s_layer ∷ layers) next records (fewer next e) u.1))
              ∙ undo-replace_run r layers next e u.0)
    ]
  where
    fewer :
        (next : List LayerRef)
        → replace_run layers r.raw_run r.s_layer ≡ some next
        → (x : LayerRef) → contains (r.s_layer ∷ layers) x ≡ false
        → contains next x ≡ false
    fewer next e x k =
        let (s, h) = contains→All (r.s_layer ∷ layers) x k in
        All→contains next x
          (replace_run-All (λ l. layer_eq l x ≡ false) layers r.raw_run r.s_layer next e h s)
