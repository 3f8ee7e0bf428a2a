-- ===== src/Layers/Squash/Elements.antt =====
-- stack/squash.rs and stack/lease/rewrite.rs: a splice or a contraction brings in no layer but those
-- of the blocks or the records.
use ephemeral_sandbox.Prelude.{
  All-append, ◌≡◌, none, some, List, [], ◌∷◌, ◌++◌, All, Option-cases, inl, inr, subst,
}
use ephemeral_sandbox.Layers.Model.{LayerRef}
use ephemeral_sandbox.Layers.Squash.{
  replace_run, BuiltBlock, squashed_layer, splice_blocks, SubstitutionRecord, contract_layers,
}
use ephemeral_sandbox.Layers.Squash.Runs.{replace_run-parts}

module _ (P : LayerRef → Type 0) where
  pub All-split : (xs ys : List LayerRef) → All P (xs ++ ys) → All P xs × All P ys
  All-split [] ys h = (tt, h)
  All-split (x ∷ xs) ys h = let (a, b) = All-split xs ys h.1 in ((h.0, a), b)

  pub replace_run-All :
      (layers run : List LayerRef) (layer : LayerRef) (out : List LayerRef)
      → replace_run layers run layer ≡ some out
      → All P layers
      → P layer
      → All P out
  replace_run-All layers run layer out e h p =
      let (before, after, l, o, _) = replace_run-parts layers run layer out e in
      let (b, rest) = All-split before (run ++ after) (subst (All P) l h) in
      rw o (All-append P before (layer ∷ after) b ((p, (All-split run after rest).1)))

  pub splice_blocks-All :
      (layers : List LayerRef) (built : List BuiltBlock) (out : List LayerRef)
      → splice_blocks layers built ≡ some out
      → All P layers
      → All (λ b. P (squashed_layer b)) built
      → All P out
  unfolding splice_blocks
  splice_blocks-All layers [] out e h k = subst (λ o. All P o) (some-injective layers out e) h
    where
      some-injective : (x y : List LayerRef) → some x ≡ some y → x ≡ y
      some-injective x y p = cc
  splice_blocks-All layers (block ∷ built) out e h k =
      elim (Option-cases (replace_run layers block.replaced (squashed_layer block))) [
        | inl n ↦ absurd (none-some (rw (n, splice_blocks) at e))
        | inr (next, n) ↦
            splice_blocks-All next built out (rw (n, splice_blocks) at e)
              (replace_run-All layers block.replaced _ next n h k.0) k.1
      ]
    where
      none-some : none ≡ some out → ⊥
      none-some p = cc

  pub contract_layers-All :
      (layers : List LayerRef) (records : List SubstitutionRecord)
      → All P layers
      → All (λ r. P r.s_layer) records
      → All P (contract_layers layers records)
  unfolding contract_layers
  contract_layers-All layers [] h k = h
  contract_layers-All layers (r ∷ records) h k =
      elim (Option-cases (replace_run layers r.raw_run r.s_layer)) [
        | inl n ↦ rw (n, contract_layers) (contract_layers-All layers records h k.1)
        | inr (next, n) ↦
            rw (n, contract_layers)
              (contract_layers-All next records (replace_run-All layers r.raw_run _ next n h k.0)
                k.1)
      ]
