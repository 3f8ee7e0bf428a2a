-- ===== src/Layers/Squash/Runs.antt =====
-- stack/squash.rs: a run is found where the list holds it, and what the splice leaves.
use ephemeral_sandbox.Prelude.{
  ℕ, suc, ◌+◌, ◌≤◌, ◌≡◌, sym, ap, ap₂, ◌∙◌, none, some, List, [], ◌∷◌, ◌++◌, arith, length, take,
  drop, Bool-cases, Option-cases, inl, inr, subst, take-append-drop, drop-drop,
}
use ephemeral_sandbox.Layers.Model.{LayerRef, layers_eq, layers_eq→eq}
use ephemeral_sandbox.Layers.Squash.{window_from, find_run, splice, replace_run}

-- A window that is found: the list around it.
window_from-found :
    (at : ℕ) (needle ls : List LayerRef) (start : ℕ)
    → window_from at needle ls ≡ some start
    → (n : ℕ) × (start ≡ at + n) × (take (length needle) (drop n ls) ≡ needle)
unfolding window_from
window_from-found at needle [] start h = cc
window_from-found at needle (l ∷ ls) start h =
    elim (Bool-cases (layers_eq (take (length needle) (l ∷ ls)) needle)) [
      | inl e ↦ (0, ground (arith, same (rw (e, window_from) at h)), layers_eq→eq _ needle e)
      | inr e ↦
          let (n, a, t) = window_from-found (at + 1) needle ls start (rw (e, window_from) at h) in
          (suc n, omega arith, t)
    ]
  where
    same : some at ≡ some start → at ≡ start
    same p = cc

-- Where a run is replaced, the list was the run with something before it and something after it,
-- and is now the new layer between the two.
pub replace_run-parts :
    (layers run : List LayerRef) (layer : LayerRef) (out : List LayerRef)
    → replace_run layers run layer ≡ some out
    → (before : List LayerRef) × (after : List LayerRef) × (layers ≡ before ++ (run ++ after))
      × (out ≡ before ++ layer ∷ after)
      × (1 ≤ length run)
unfolding replace_run find_run splice
replace_run-parts layers [] layer out h = cc
replace_run-parts layers (r ∷ run) layer out h =
    elim (Option-cases (window_from 0 (r ∷ run) layers)) [
      | inl e ↦ absurd (none-some (rw (e, replace_run) at h))
      | inr (start, e) ↦
          let (n, a, t) = window_from-found 0 (r ∷ run) layers start e in
          let same : n ≡ start = omega arith in
          (
            take start layers,
            drop (start + length (r ∷ run)) layers,
            sym (take-append-drop start layers)
                ∙ ap (◌++◌ (take start layers)) (
                    rest start
                      (subst (λ k. take (length (r ∷ run)) (drop k layers) ≡ r ∷ run) same t)),
            sym (some-injective _ out (rw (e, replace_run) at h)),
            omega arith,
          )
    ]
  where
    none-some : none ≡ some out → ⊥
    none-some p = cc

    some-injective : (x y : List LayerRef) → some x ≡ some y → x ≡ y
    some-injective x y p = cc

    rest :
        (n : ℕ)
        → take (length (r ∷ run)) (drop n layers) ≡ r ∷ run
        → drop n layers ≡ (r ∷ run) ++ drop (n + length (r ∷ run)) layers
    rest n t =
        sym (take-append-drop (length (r ∷ run)) (drop n layers))
        ∙ ap₂ ◌++◌ t (drop-drop (length (r ∷ run)) n layers)
