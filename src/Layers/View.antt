-- ===== src/Layers/View.antt =====
-- stack/projection/mod.rs and storage/whiteout.rs: what the merged view of the layers of a manifest has
-- at one path. A layer is a tree; where the path leads through a symbolic link, the kernel goes on
-- behind it, and what it finds there is the parameter `Behind`. Reads of what is there succeed.
pub mod Overlay
pub mod Descend
pub mod United
pub mod Entry
pub mod Classified
use ephemeral_sandbox.Prelude.{
  ℕ, Bool, true, false, ◌&&◌, ◌||◌, Option, none, some, List, [], ◌∷◌, ◌++◌, length, leb, ltb, ◌==◌,
  if◌then◌else◌, Text, text, text_eq,
}
use ephemeral_sandbox.Layers.Model.{LayerRef, Manifest}
use ephemeral_sandbox.Layers.Changes.Path.{parse, parts_from}
use ephemeral_sandbox.Layers.Planner.{MergedEntry, absent, file, link, folder}
use ephemeral_sandbox.Layers.Stack.Collect.{layer_ref_ok}

mutual
  -- A link has its text and a number for the place where it stands, in which layer and which folder.
  -- `whiteout` is the kernel's: a device 0/0, or an empty file with the attribute.
  pub data Node : Type 0 where
    regular : List ℕ → Bool → Node
    symlink : Text → ℕ → Node
    directory : Children → Node
    whiteout special : Node

  pub data Children : Type 0 where
    no_more : Children
    child : Text → Node → Children → Children

pub data Found : Type 0 where
  missing not_a_directory refused : Found
  at : Node → Found

abbrev pub Behind : Type 0
Behind = Text → ℕ → List Text → Found

abbrev pub opaque_marker : Text
opaque_marker = text ".wh..wh..opq"

abbrev pub whiteout_name : Text → Text
whiteout_name name = text ".wh." ++ name

unfoldable pub named : Text → Children → Option Node
named name no_more = none
named name (child other node rest) = if text_eq other name then some node else named name rest

-- `logical_whiteout_path_for_target`.
unfoldable pub whiteout_path : List Text → List Text
whiteout_path [] = []
whiteout_path (p ∷ []) = whiteout_name p ∷ []
whiteout_path (p ∷ q ∷ ps) = p ∷ whiteout_path (q ∷ ps)

module _ (behind : Behind) where
  -- `symlink_metadata`: a link at the end of the path is not followed.
  unfoldable pub stat : Node → List Text → Found
  unfolding named
  stat node [] = at node
  stat (directory children) (p ∷ ps) = elim (named p children) [
    | none ↦ missing
    | some node ↦ stat node ps
  ]
  stat (symlink target place) (p ∷ ps) = behind target place (p ∷ ps)
  stat (regular _ _) (p ∷ ps) = not_a_directory
  stat whiteout (p ∷ ps) = not_a_directory
  stat special (p ∷ ps) = not_a_directory

  -- `path.exists()`, which follows a link.
  unfoldable pub exists : Found → Bool
  exists (at (symlink target place)) = elim (behind target place []) [ at _ ↦ true | _ ↦ false ]
  exists (at _) = true
  exists _ = false

  unfoldable pub is_kernel_whiteout : Found → Bool
  is_kernel_whiteout (at whiteout) = true
  is_kernel_whiteout _ = false

  unfoldable pub is_whiteouted : Node → List Text → Bool
  unfolding stat exists is_kernel_whiteout whiteout_path
  is_whiteouted layer path =
      is_kernel_whiteout (stat layer path) || exists (stat layer (whiteout_path path))

  unfoldable pub is_file_or_link : Found → Bool
  is_file_or_link (at (regular _ _)) = true
  is_file_or_link (at (symlink _ _)) = true
  is_file_or_link _ = false

  unfoldable pub is_link : Found → Bool
  is_link (at (symlink _ _)) = true
  is_link _ = false

  -- `lookup_blocked_by_layer`, from the parts before and after the place that has been reached.
  unfoldable pub blocked_from : Node → List Text → List Text → Bool
  unfolding is_whiteouted stat is_file_or_link exists
  blocked_from layer before [] = false
  blocked_from layer before (p ∷ []) = false
  blocked_from layer before (p ∷ q ∷ ps) =
      let ancestor = before ++ p ∷ [] in
      is_whiteouted layer ancestor
      || is_file_or_link (stat layer ancestor)
      || exists (stat layer (ancestor ++ opaque_marker ∷ []))
      || blocked_from layer ancestor (q ∷ ps)

  unfoldable pub lookup_blocked_by_layer : Node → List Text → Bool
  unfolding blocked_from
  lookup_blocked_by_layer layer path = blocked_from layer [] path

  unfoldable pub link_from : Node → List Text → List Text → Bool
  unfolding stat is_link
  link_from layer before [] = false
  link_from layer before (p ∷ []) = false
  link_from layer before (p ∷ q ∷ ps) =
      let ancestor = before ++ p ∷ [] in
      is_link (stat layer ancestor) || link_from layer ancestor (q ∷ ps)

  unfoldable pub lookup_symlink_ancestor_by_layer : Node → List Text → Bool
  unfolding link_from
  lookup_symlink_ancestor_by_layer layer path = link_from layer [] path

pub data ViewError : Type 0 where
  invalid_path missing_layer stale_layer directory_read : ViewError
  file_too_large : ℕ → ℕ → ViewError

pub data View {ℓ} (A : Type ℓ) : Type ℓ where
  shown : A → View A
  broken : ViewError → View A

-- What one layer says of a path: the entry, an error, or that the next layer decides.
pub data Verdict (A : Type 0) : Type 0 where
  decided : View A → Verdict A
  below : Verdict A

-- `layer_dir`, from the folders of the storage root by their paths.
unfoldable pub layer_dir : (Text → Option Node) → LayerRef → View Node
unfolding layer_ref_ok
layer_dir storage layer =
    if layer_ref_ok layer
    then elim (storage layer.path) [
      | some (directory children) ↦ shown (directory children)
      | _ ↦ broken missing_layer
    ]
    else broken invalid_path

-- `read_file_limited`.
unfoldable pub read_file_limited : List ℕ → ℕ → View (List ℕ)
read_file_limited bytes max_bytes =
    if ltb max_bytes (length bytes)
    then broken (file_too_large (length bytes) max_bytes)
    else shown bytes

module _ (behind : Behind) where
  -- `Err(NotFound)`, and `Err(NotADirectory)` in a layer that blocks the path.
  unfoldable pub absent_in : Node → List Text → Bool → Verdict MergedEntry
  unfolding lookup_blocked_by_layer
  absent_in layer path is_missing =
      if lookup_blocked_by_layer behind layer path
      then decided (shown absent)
      else if is_missing
      then below
      else decided (broken stale_layer)

  unfoldable pub entry_of : ℕ → Node → List Text → Found → Verdict MergedEntry
  unfolding absent_in read_file_limited
  entry_of max_bytes layer path (at (symlink target _)) = decided (shown (link target))
  entry_of max_bytes layer path (at (regular bytes executable)) =
      decided (elim (read_file_limited bytes max_bytes) [
        | shown content ↦ shown (file content executable)
        | broken e ↦ broken e
      ])
  entry_of max_bytes layer path (at (directory _)) = decided (shown folder)
  entry_of max_bytes layer path (at whiteout) = decided (broken stale_layer)
  entry_of max_bytes layer path (at special) = decided (broken stale_layer)
  entry_of max_bytes layer path missing = absent_in layer path true
  entry_of max_bytes layer path not_a_directory = absent_in layer path false
  entry_of max_bytes layer path refused = decided (broken stale_layer)

  unfoldable pub read_layer : ℕ → Node → List Text → Verdict MergedEntry
  unfolding is_whiteouted stat entry_of
  read_layer max_bytes layer path =
      if is_whiteouted behind layer path
      then decided (shown absent)
      else entry_of max_bytes layer path (stat behind layer path)

  -- The loop over the layers, the newest first.
  unfoldable pub read_layers :
      ℕ → (Text → Option Node) → List LayerRef → List Text → View MergedEntry
  unfolding layer_dir read_layer
  read_layers max_bytes storage [] path = shown absent
  read_layers max_bytes storage (layer ∷ layers) path =
      let rest = read_layers max_bytes storage layers path in
      elim (layer_dir storage layer) [
        | broken e ↦ broken e
        | shown node ↦ elim (read_layer max_bytes node path) [
          | decided result ↦ result
          | below ↦ rest
        ]
      ]

  unfoldable pub read_entry_limited : (Text → Option Node) → Text → Manifest → ℕ → View MergedEntry
  unfolding parse parts_from read_layers
  read_entry_limited storage path manifest max_bytes = elim (parse path) [
    | none ↦ broken invalid_path
    | some rel ↦ read_layers max_bytes storage manifest.layers (parts_from [] rel)
  ]

  unfoldable pub read_bytes_limited :
      (Text → Option Node) → Text → Manifest → ℕ → View (Option (List ℕ) × Bool)
  unfolding read_entry_limited
  read_bytes_limited storage path manifest max_bytes =
      elim (read_entry_limited storage path manifest max_bytes) [
        | broken e ↦ broken e
        | shown entry ↦ elim entry [
          | absent ↦ shown (none, false)
          | file bytes _ ↦ shown (some bytes, true)
          | link target ↦ shown (some target, true)
          | folder ↦ elim manifest.layers [
            | [] ↦ broken directory_read
            | _ ∷ _ ↦ broken stale_layer
          ]
        ]
      ]
