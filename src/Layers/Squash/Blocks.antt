-- ===== src/Layers/Squash/Blocks.antt =====
-- stack/squash.rs: the blocks of a plan are the maximal runs of two layers or more between the
-- layers that break a run.
use ephemeral_sandbox.Prelude.{
  ◌<◌, ◌≤◌, ◌≡◌, true, false, List, [], ◌∷◌, ◌++◌, arith, All, length, leb, Bool-cases, inl, inr,
  Text, subst,
}
use ephemeral_sandbox.Layers.Model.{LayerRef}
use ephemeral_sandbox.Layers.Squash.{breaks, push_block, partition_from, partition_blocks}
use mathlib.Core.List.{append_assoc}

-- The list is at its end or at a layer that breaks a run.
abbrev pub Stops : List Text → List LayerRef → Type 0
Stops boundaries [] = Unit
Stops boundaries (l ∷ _) = breaks boundaries l ≡ true

-- The layers of a list with its blocks: each layer breaks runs, or is in a run that ends where
-- the run cannot go on; a run is a block if it has two layers or more.
pub data Blocks (boundaries : List Text) : List LayerRef → List (List LayerRef) → Type 0 where
  nothing : Blocks boundaries [] []
  fixed :
      (l : LayerRef) (ls : List LayerRef) (blocks : List (List LayerRef))
      → breaks boundaries l ≡ true
      → Blocks boundaries ls blocks
      → Blocks boundaries (l ∷ ls) blocks
  short :
      (run ls : List LayerRef) (blocks : List (List LayerRef))
      → All (λ l. breaks boundaries l ≡ false) run
      → length run < 2
      → Stops boundaries ls
      → Blocks boundaries ls blocks
      → Blocks boundaries (run ++ ls) blocks
  long :
      (run ls : List LayerRef) (blocks : List (List LayerRef))
      → All (λ l. breaks boundaries l ≡ false) run
      → 2 ≤ length run
      → Stops boundaries ls
      → Blocks boundaries ls blocks
      → Blocks boundaries (run ++ ls) (run ∷ blocks)

module _ (boundaries : List Text) where
  pushed :
      (run ls : List LayerRef) (blocks : List (List LayerRef))
      → All (λ l. breaks boundaries l ≡ false) run
      → Stops boundaries ls
      → Blocks boundaries ls blocks
      → Blocks boundaries (run ++ ls) (push_block run blocks)
  unfolding push_block
  pushed run ls blocks u e b = elim (Bool-cases (leb 2 (length run))) [
    | inl k ↦ rw (k, push_block) (long run ls blocks u (ground arith) e b)
    | inr k ↦ rw (k, push_block) (short run ls blocks u (ground arith) e b)
  ]

  grown :
      (run : List LayerRef) (l : LayerRef)
      → All (λ l. breaks boundaries l ≡ false) run
      → breaks boundaries l ≡ false
      → All (λ l. breaks boundaries l ≡ false) (run ++ l ∷ [])
  grown [] l u e = (e, tt)
  grown (x ∷ run) l u e = (u.0, grown run l u.1 e)

  partition_from-Blocks :
      (layers run : List LayerRef)
      → All (λ l. breaks boundaries l ≡ false) run
      → Blocks boundaries (run ++ layers) (partition_from boundaries run layers)
  unfolding partition_from
  partition_from-Blocks [] run u = pushed run [] [] u tt nothing
  partition_from-Blocks (l ∷ layers) run u = elim (Bool-cases (breaks boundaries l)) [
    | inl e ↦
        rw (e, partition_from)
          (pushed run (l ∷ layers) _ u e (fixed l layers _ e (partition_from-Blocks layers [] tt)))
    | inr e ↦
        rw (e, partition_from)
          (subst (λ ls. Blocks boundaries ls (partition_from boundaries (run ++ l ∷ []) layers))
            (append_assoc run (l ∷ []) layers)
            (partition_from-Blocks layers (run ++ l ∷ []) (grown run l u e)))
  ]

-- The blocks of a plan are the maximal runs, two layers long or more, of layers that are neither a
-- boundary nor a base layer, in manifest order.
pub partition_blocks-Blocks :
    (layers : List LayerRef) (boundaries : List Text)
    → Blocks boundaries layers (partition_blocks layers boundaries)
unfolding partition_blocks
partition_blocks-Blocks layers boundaries = partition_from-Blocks boundaries layers [] tt
