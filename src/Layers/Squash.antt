-- ===== src/Layers/Squash.antt =====
-- stack/squash.rs and stack/lease/rewrite.rs: the blocks of a squash, the splice of its commit, and
-- the contraction of a lease's layers.
pub mod Blocks
pub mod Runs
pub mod Elements
pub mod Contract
pub mod Splices
pub mod Commits
use ephemeral_sandbox.Prelude.{
  ℕ, zero, suc, ◌+◌, ◌-◌, ◌≡◌, refl, Bool, true, false, ◌||◌, Option, none, some, List, [], ◌∷◌,
  ◌++◌, map, leb, if◌then◌else◌, length, take, drop, Text, text, text_eq, has,
}
use ephemeral_sandbox.Layers.Model.{LayerRef, layers_eq, starts_with, base_layer_prefix, layer_path}

-- A layer that ends a run: a boundary, or a base layer.
unfoldable pub breaks : List Text → LayerRef → Bool
unfolding has starts_with
breaks boundaries layer =
    has layer.layer_id boundaries || starts_with layer.layer_id base_layer_prefix

-- `blocks.push(run)` if the run has two layers or more.
unfoldable pub push_block : List LayerRef → List (List LayerRef) → List (List LayerRef)
push_block run blocks = if leb 2 (length run) then run ∷ blocks else blocks

-- `run` is the current run; the blocks come in manifest order.
unfoldable pub partition_from : List Text → List LayerRef → List LayerRef → List (List LayerRef)
unfolding breaks push_block
partition_from boundaries run [] = push_block run []
partition_from boundaries run (layer ∷ layers) = elim (breaks boundaries layer) [
  | true ↦ push_block run (partition_from boundaries [] layers)
  | false ↦ partition_from boundaries (run ++ layer ∷ []) layers
]

unfoldable pub partition_blocks : List LayerRef → List Text → List (List LayerRef)
unfolding partition_from
partition_blocks layers boundaries = partition_from boundaries [] layers

-- The first window of `haystack` that equals `needle`; `at` is its position.
unfoldable pub window_from : ℕ → List LayerRef → List LayerRef → Option ℕ
window_from at needle [] = none
window_from at needle (l ∷ ls) =
    let rest = window_from (at + 1) needle ls in
    if layers_eq (take (length needle) (l ∷ ls)) needle then some at else rest

-- With a needle that is longer than the haystack no window is equal to it.
unfoldable pub find_run : List LayerRef → List LayerRef → Option ℕ
unfolding window_from layers_eq
find_run haystack [] = none
find_run haystack (n ∷ needle) = window_from 0 (n ∷ needle) haystack

-- `layers.splice(start..start + len, once(layer))`.
unfoldable pub splice : List LayerRef → ℕ → ℕ → LayerRef → List LayerRef
splice layers start len layer = take start layers ++ layer ∷ drop (start + len) layers

-- One block in one list: replaced where it is found.
unfoldable pub replace_run : List LayerRef → List LayerRef → LayerRef → Option (List LayerRef)
unfolding find_run splice
replace_run layers run layer = elim (find_run layers run) [
  | none ↦ none
  | some start ↦ some (splice layers start (length run) layer)
]

pub record BuiltBlock : Type 0 where
  pub layer_id : Text
  pub replaced : List LayerRef

abbrev pub squashed_layer : BuiltBlock → LayerRef
squashed_layer block = record { layer_id = block.layer_id; path = layer_path block.layer_id }

-- The loop of `commit_squash` over the built blocks; `none` is a planned run that is no longer there.
unfoldable pub splice_blocks : List LayerRef → List BuiltBlock → Option (List LayerRef)
unfolding replace_run
splice_blocks layers [] = some layers
splice_blocks layers (block ∷ blocks) =
    elim (replace_run layers block.replaced (squashed_layer block)) [
      | none ↦ none
      | some layers' ↦ splice_blocks layers' blocks
    ]

pub record SubstitutionRecord : Type 0 where
  pub s_layer : LayerRef
  pub raw_run : List LayerRef

-- A record whose run is empty or not found changes nothing.
unfoldable pub contract_layers : List LayerRef → List SubstitutionRecord → List LayerRef
unfolding replace_run
contract_layers layers [] = layers
contract_layers layers (r ∷ records) = elim (replace_run layers r.raw_run r.s_layer) [
  | none ↦ contract_layers layers records
  | some layers' ↦ contract_layers layers' records
]

-- `record_substitution` for each committed block.
unfoldable pub record_substitutions : List BuiltBlock → List SubstitutionRecord
record_substitutions =
    map λ block. record { s_layer = squashed_layer block; raw_run = block.replaced }
