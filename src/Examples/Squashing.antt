-- ===== src/Examples/Squashing.antt =====
-- Squashes of short lists of layers.
use ephemeral_sandbox.Prelude.{◌≡◌, refl, some, List, [], ◌∷◌, ◌++◌, Text, text, text_eq}
use ephemeral_sandbox.Layers.Model.{LayerRef, contains, layer_eq, layer_path}
use ephemeral_sandbox.Layers.Squash.{
  BuiltBlock, partition_blocks, splice_blocks, contract_layers, record_substitutions,
}
use ephemeral_sandbox.Layers.Squash.Blocks.{Blocks, partition_blocks-Blocks}
use ephemeral_sandbox.Layers.Squash.Contract.{written_out, contract_layers-written_out}
use ephemeral_sandbox.Layers.Squash.Commits.{
  Replaced, splice_blocks-planned, contract_layers-splice_blocks,
}

abbrev named : Text → LayerRef
named id = record { layer_id = id; path = text "layers/" ++ id }

-- Three layers over a base layer.
abbrev four_layers : List LayerRef
four_layers = named (text "L3") ∷ named (text "L2") ∷ named (text "L1") ∷ named (text "B0") ∷ []

abbrev built_block : BuiltBlock
built_block = record { layer_id = text "S1"; replaced = named (text "L2") ∷ named (text "L1") ∷ [] }

abbrev squashed_layers : List LayerRef
squashed_layers = named (text "L3") ∷ named (text "S1") ∷ named (text "B0") ∷ []

partition_test :
    partition_blocks four_layers (text "L3" ∷ [])
    ≡ (named (text "L2") ∷ named (text "L1") ∷ []) ∷ []
unfolding partition_blocks text_eq
partition_test = refl

splice_test : splice_blocks four_layers (built_block ∷ []) ≡ some squashed_layers
unfolding splice_blocks text_eq layer_path
splice_test = refl

partition_blocks-Blocks_example :
    Blocks (text "L3" ∷ []) four_layers (partition_blocks four_layers (text "L3" ∷ []))
partition_blocks-Blocks_example = partition_blocks-Blocks four_layers (text "L3" ∷ [])

contract_layers-written_out_example :
    written_out
      (record_substitutions (built_block ∷ []))
      (contract_layers four_layers (record_substitutions (built_block ∷ [])))
    ≡ four_layers
unfolding contains record_substitutions layer_eq text_eq
contract_layers-written_out_example =
    contract_layers-written_out four_layers (record_substitutions (built_block ∷ [])) ((refl, tt))

contract_layers-splice_blocks_example :
    contract_layers four_layers (record_substitutions (built_block ∷ [])) ≡ squashed_layers
contract_layers-splice_blocks_example =
    contract_layers-splice_blocks four_layers (built_block ∷ []) squashed_layers splice_test

splice_blocks-planned_example :
    (out : List LayerRef) × (Replaced four_layers (built_block ∷ []) out)
    × (splice_blocks (named (text "L4") ∷ four_layers) (built_block ∷ [])
        ≡ some (named (text "L4") ∷ out))
unfolding contains partition_blocks record_substitutions text_eq layer_eq
splice_blocks-planned_example =
    splice_blocks-planned (named (text "L4") ∷ []) four_layers (text "L3" ∷ []) (built_block ∷ [])
      refl ((refl, (refl, (refl, (refl, (refl, tt)))))) ((refl, tt))
