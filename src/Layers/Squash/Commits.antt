-- ===== src/Layers/Squash/Commits.antt =====
-- stack/squash.rs: the commit of the blocks of a plan succeeds, and a contraction agrees with it.
use ephemeral_sandbox.Prelude.{
  All-append, ◌≤◌, ◌≡◌, refl, sym, ap, ◌∙◌, false, none, some, List, [], ◌∷◌, ◌++◌, map, arith, All,
  length, Option-cases, inl, inr, subst, Text,
}
use ephemeral_sandbox.Layers.Model.{LayerRef, layer_eq, contains}
use ephemeral_sandbox.Layers.Squash.{
  replace_run, BuiltBlock, squashed_layer, splice_blocks, contract_layers, record_substitutions,
  partition_blocks,
}
use mathlib.Core.List.{append_assoc}
use ephemeral_sandbox.Layers.Squash.Elements.{All-split}
use ephemeral_sandbox.Layers.Squash.Contract.{Unused, Unused-sub, contains→All, All→contains}
use ephemeral_sandbox.Layers.Squash.Blocks.{
  Blocks, nothing, fixed, short, long, partition_blocks-Blocks,
}
use ephemeral_sandbox.Layers.Squash.Splices.{Distinct, layer_eq-sym, replace_run_unique}

-- The list with the runs of the built blocks, in order, replaced by their squashed layers.
pub data Replaced : List LayerRef → List BuiltBlock → List LayerRef → Type 0 where
  rest : (ls : List LayerRef) → Replaced ls [] ls
  block :
      (before after : List LayerRef) (b : BuiltBlock) (built : List BuiltBlock)
      (out : List LayerRef)
      → 1 ≤ length b.replaced
      → Replaced after built out
      → Replaced (before ++ (b.replaced ++ after)) (b ∷ built) (before ++ squashed_layer b ∷ out)

-- More layers in front.
in_front :
    (xs ls out : List LayerRef) (built : List BuiltBlock)
    → Replaced ls built out
    → Replaced (xs ++ ls) built (xs ++ out)
in_front xs ls out built (rest _) = rest (xs ++ ls)
in_front xs ls out built (block before after b built' out' n r) =
    subst (λ ls. Replaced ls (b ∷ built') (xs ++ (before ++ squashed_layer b ∷ out')))
      (append_assoc xs before (b.replaced ++ after))
      (subst (λ o. Replaced ((xs ++ before) ++ (b.replaced ++ after)) (b ∷ built') o)
        (append_assoc xs before (squashed_layer b ∷ out'))
        (block (xs ++ before) after b built' out' n r))

-- Built from the blocks of a list, whatever the new ids.
Blocks-Replaced :
    (boundaries : List Text) (layers : List LayerRef) (blocks : List (List LayerRef))
    (built : List BuiltBlock)
    → Blocks boundaries layers blocks
    → map (λ b. b.replaced) built ≡ blocks
    → (out : List LayerRef) × Replaced layers built out
Blocks-Replaced boundaries layers blocks [] b e = (layers, rest layers)
Blocks-Replaced boundaries layers blocks (x ∷ built) nothing e = cc
Blocks-Replaced boundaries layers blocks (x ∷ built) (fixed l ls _ _ b) e =
    let (out, r) = Blocks-Replaced boundaries ls blocks (x ∷ built) b e in
    (l ∷ out, in_front (l ∷ []) ls out (x ∷ built) r)
Blocks-Replaced boundaries layers blocks (x ∷ built) (short run ls _ _ _ _ b) e =
    let (out, r) = Blocks-Replaced boundaries ls blocks (x ∷ built) b e in
    (run ++ out, in_front run ls out (x ∷ built) r)
Blocks-Replaced boundaries layers blocks (x ∷ built) (long run ls blocks' _ n _ b) e =
    let (out, r) = Blocks-Replaced boundaries ls blocks' built b (tail e) in
    (
      _,
      subst (λ k. Replaced (k ++ ls) (x ∷ built) (squashed_layer x ∷ out)) (head e)
          (block [] ls x built out (rw (head e) (omega arith)) r),
    )
  where
    head : x.replaced ∷ map (λ b. b.replaced) built ≡ run ∷ blocks' → x.replaced ≡ run
    head p = cc

    tail :
        x.replaced ∷ map (λ b. b.replaced) built ≡ run ∷ blocks'
        → map (λ b. b.replaced) built ≡ blocks'
    tail p = cc

-- Distinct layers stay so when a run becomes a layer that is not among them.
Distinct-after : (run after : List LayerRef) → Distinct (run ++ after) → Distinct after
Distinct-after [] after d = d
Distinct-after (r ∷ run) after d = Distinct-after run after d.1

without_run :
    (before run after : List LayerRef) (x : LayerRef)
    → contains (before ++ (run ++ after)) x ≡ false
    → All (λ l. layer_eq l x ≡ false) before × All (λ l. layer_eq l x ≡ false) after
without_run before run after x h =
    let (b, k) = All-split (λ l. layer_eq l x ≡ false) before (run ++ after) (contains→All _ x h) in
    (b, (All-split (λ l. layer_eq l x ≡ false) run after k).1)

Distinct-replaced :
    (before run after : List LayerRef) (s : LayerRef)
    → Distinct (before ++ (run ++ after))
    → contains (before ++ (run ++ after)) s ≡ false
    → Distinct (before ++ s ∷ after)
unfolding contains
Distinct-replaced [] run after s d h =
    (All→contains after s (without_run [] run after s h).1, Distinct-after run after d)
Distinct-replaced (x ∷ before) run after s d h =
    let (b, a) = without_run before run after x d.0 in
    let k = contains→All (x ∷ (before ++ (run ++ after))) s h in
    (
      All→contains (before ++ s ∷ after) x
          (All-append (λ l. layer_eq l x ≡ false) before (s ∷ after) b ((layer_eq-sym x s k.0, a))),
      Distinct-replaced before run after s d.1 (All→contains _ s k.1),
    )

before_head :
    (before : List LayerRef) (r : LayerRef) (ls : List LayerRef)
    → Distinct (before ++ r ∷ ls)
    → All (λ l. layer_eq l r ≡ false) before
before_head [] r ls d = tt
before_head (x ∷ before) r ls d =
    let (_, k) = All-split (λ l. layer_eq l x ≡ false) before (r ∷ ls) (contains→All _ x d.0) in
    (layer_eq-sym r x k.0, before_head before r ls d.1)

replaced_at :
    (before run after : List LayerRef) (layer : LayerRef)
    → 1 ≤ length run
    → Distinct (before ++ (run ++ after))
    → replace_run (before ++ (run ++ after)) run layer ≡ some (before ++ layer ∷ after)
replaced_at before [] after layer n d = absurd (omega arith)
replaced_at before (r ∷ run) after layer n d =
    replace_run_unique before r run after layer (before_head before r (run ++ after) d)

module _ (before after : List LayerRef) (b : BuiltBlock) (built : List BuiltBlock) where
  abbrev whole : List LayerRef
  whole = before ++ (b.replaced ++ after)

  abbrev replaced : List LayerRef
  replaced = (before ++ squashed_layer b ∷ []) ++ after

  replaced_eq : replaced ≡ before ++ squashed_layer b ∷ after
  replaced_eq = append_assoc before (squashed_layer b ∷ []) after

  one_block :
      (out : List LayerRef)
      → 1 ≤ length b.replaced
      → Distinct whole
      → Unused whole (record_substitutions (b ∷ built))
      → (Distinct replaced
          → Unused replaced (record_substitutions built)
          → splice_blocks replaced built ≡ some ((before ++ squashed_layer b ∷ []) ++ out))
      → splice_blocks whole (b ∷ built) ≡ some ((before ++ squashed_layer b ∷ []) ++ out)
  unfolding splice_blocks record_substitutions contains
  one_block out n d u below =
      rw (replaced_at before b.replaced after (squashed_layer b) n d, splice_blocks)
        (subst (λ ls. splice_blocks ls built ≡ some ((before ++ squashed_layer b ∷ []) ++ out))
          replaced_eq
          (below
            (subst Distinct (sym replaced_eq)
              (Distinct-replaced before b.replaced after (squashed_layer b) d u.0))
            (Unused-sub (squashed_layer b ∷ whole) replaced (record_substitutions built) fewer
              u.1)))
    where
      fewer :
          (x : LayerRef)
          → contains (squashed_layer b ∷ whole) x ≡ false
          → contains replaced x ≡ false
      fewer x k =
          let (s, h) = contains→All (squashed_layer b ∷ whole) x k in
          let (front, back) = without_run before b.replaced after x (All→contains whole x h) in
          subst (λ ls. contains ls x ≡ false) (sym replaced_eq)
            (All→contains (before ++ squashed_layer b ∷ after) x (
              All-append (λ l. layer_eq l x ≡ false) before (squashed_layer b ∷ after) front
                ((s, back))))

-- Under any layers `top` that were published since, the commit splices every block, in place.
pub splice_blocks-Replaced :
    (top ls : List LayerRef) (built : List BuiltBlock) (out : List LayerRef)
    → Replaced ls built out
    → Distinct (top ++ ls)
    → Unused (top ++ ls) (record_substitutions built)
    → splice_blocks (top ++ ls) built ≡ some (top ++ out)
unfolding splice_blocks record_substitutions
splice_blocks-Replaced top ls [] out (rest _) d u = refl
splice_blocks-Replaced top ls built out (block before after b built' out' n r) d u =
    let p : top ++ (before ++ (b.replaced ++ after)) ≡ (top ++ before) ++ (b.replaced ++ after) =
      sym (append_assoc top before (b.replaced ++ after)) in
    let q : ((top ++ before) ++ squashed_layer b ∷ []) ++ out'
        ≡ top ++ (before ++ squashed_layer b ∷ out') =
      append_assoc (top ++ before) (squashed_layer b ∷ []) out'
      ∙ append_assoc top before (squashed_layer b ∷ out') in
    subst (λ ls. splice_blocks ls (b ∷ built') ≡ some (top ++ (before ++ squashed_layer b ∷ out')))
      (sym p)
      (one_block (top ++ before) after b built' out' n (subst Distinct p d)
          (subst (λ ls. Unused ls (record_substitutions (b ∷ built'))) p u)
          (splice_blocks-Replaced ((top ++ before) ++ squashed_layer b ∷ []) after built' out' r)
        ∙ ap some q)

-- The commit of a plan whose blocks are built succeeds, also when layers `top` were published since
-- the plan, and leaves the planned layers with each block replaced, if no layer occurs twice and the
-- new layers are new.
pub splice_blocks-planned :
    (top layers : List LayerRef) (boundaries : List Text) (built : List BuiltBlock)
    → map (λ b. b.replaced) built ≡ partition_blocks layers boundaries
    → Distinct (top ++ layers)
    → Unused (top ++ layers) (record_substitutions built)
    → (out : List LayerRef) × (Replaced layers built out)
      × (splice_blocks (top ++ layers) built ≡ some (top ++ out))
splice_blocks-planned top layers boundaries built e d u =
    let (out, r) =
      Blocks-Replaced boundaries layers _ built (partition_blocks-Blocks layers boundaries) e in
    (out, r, splice_blocks-Replaced top layers built out r d u)

-- Where a commit splices all its blocks, a lease on the same layers is rewritten by its records to
-- the committed layers.
pub contract_layers-splice_blocks :
    (layers : List LayerRef) (built : List BuiltBlock) (out : List LayerRef)
    → splice_blocks layers built ≡ some out
    → contract_layers layers (record_substitutions built) ≡ out
unfolding splice_blocks contract_layers record_substitutions
contract_layers-splice_blocks layers [] out e = cc
contract_layers-splice_blocks layers (b ∷ built) out e =
    elim (Option-cases (replace_run layers b.replaced (squashed_layer b))) [
      | inl n ↦ absurd (none-some (rw (n, splice_blocks) at e))
      | inr (next, n) ↦
          rw (n, contract_layers)
            (contract_layers-splice_blocks next built out (rw (n, splice_blocks) at e))
    ]
  where
    none-some : none ≡ some out → ⊥
    none-some p = cc
