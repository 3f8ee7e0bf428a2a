-- ===== src/Layers/Squash/Splices.antt =====
-- stack/squash.rs: the commit of a plan splices each block where it stands, also below layers that
-- were published since.
use ephemeral_sandbox.Prelude.{
  ℕ, suc, ◌+◌, ◌≡◌, refl, sym, ap, ap₂, ◌∙◌, true, false, some, List, [], ◌∷◌, ◌++◌, arith, All,
  length, take, drop, length-append, subst,
}
use ephemeral_sandbox.Layers.Model.{
  LayerRef, layer_eq, layer_eq_iff, layers_eq, layers_eq_refl, contains,
}
use ephemeral_sandbox.Layers.Squash.{window_from, find_run, splice, replace_run}
use mathlib.Core.List.{append_assoc}

-- No layer is in the list twice.
abbrev pub Distinct : List LayerRef → Type 0
Distinct [] = Unit
Distinct (l ∷ ls) = (contains ls l ≡ false) × Distinct ls

pub layer_eq-sym : (x y : LayerRef) → layer_eq x y ≡ false → layer_eq y x ≡ false
layer_eq-sym x y h = ground (arith, layer_eq_iff x y, layer_eq_iff y x, λ (e : y ≡ x). sym e)

take-length : (xs ys : List LayerRef) → take (length xs) (xs ++ ys) ≡ xs
take-length [] ys = refl
take-length (x ∷ xs) ys = ap (◌∷◌ x) (take-length xs ys)

drop-length : (xs ys : List LayerRef) → drop (length xs) (xs ++ ys) ≡ ys
drop-length [] ys = refl
drop-length (x ∷ xs) ys = drop-length xs ys

-- The first window of a run whose first layer is not in front of it.
window_from_unique :
    (at : ℕ) (before : List LayerRef) (r : LayerRef) (run after : List LayerRef)
    → All (λ l. layer_eq l r ≡ false) before
    → window_from at (r ∷ run) (before ++ ((r ∷ run) ++ after)) ≡ some (at + length before)
unfolding window_from layers_eq
window_from_unique at [] r run after h =
    let e : layers_eq (take (length (r ∷ run)) ((r ∷ run) ++ after)) (r ∷ run) ≡ true =
      subst (λ xs. layers_eq xs (r ∷ run) ≡ true) (sym (take-length (r ∷ run) after))
        (layers_eq_refl (r ∷ run)) in
    let z : at ≡ at + 0 = omega arith in rw (e, window_from) (ap some z)
window_from_unique at (l ∷ before) r run after h =
    let e : layers_eq (take (length (r ∷ run)) (l ∷ (before ++ ((r ∷ run) ++ after)))) (r ∷ run)
        ≡ false =
      rw (h.0, layers_eq) in
    let z : (at + 1) + length before ≡ at + suc (length before) = omega arith in
    rw (e, window_from) (window_from_unique (at + 1) before r run after h.1 ∙ ap some z)

-- A run is replaced where it stands.
pub replace_run_unique :
    (before : List LayerRef) (r : LayerRef) (run after : List LayerRef) (layer : LayerRef)
    → All (λ l. layer_eq l r ≡ false) before
    → replace_run (before ++ ((r ∷ run) ++ after)) (r ∷ run) layer ≡ some (before ++ layer ∷ after)
unfolding replace_run find_run splice
replace_run_unique before r run after layer h =
    rw (window_from_unique 0 before r run after h, replace_run)
      (ap some (ap₂ (λ xs ys. xs ++ layer ∷ ys) front back))
  where
    whole : List LayerRef
    whole = before ++ ((r ∷ run) ++ after)

    front : take (0 + length before) whole ≡ before
    front =
        let z : 0 + length before ≡ length before = omega arith in
        rw z (take-length before ((r ∷ run) ++ after))

    back : drop ((0 + length before) + length (r ∷ run)) whole ≡ after
    back =
        let z : (0 + length before) + length (r ∷ run) ≡ length (before ++ r ∷ run) =
          omega (arith, length-append before (r ∷ run)) in
        rw (z, sym (append_assoc before (r ∷ run) after)) (drop-length (before ++ r ∷ run) after)
