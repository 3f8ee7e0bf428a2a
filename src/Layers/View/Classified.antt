-- ===== src/Layers/View/Classified.antt =====
-- stack/projection/mod.rs: `read_classified`, the read of the file operations, and how it differs from
-- `read_entry_limited` behind a symbolic link.
use ephemeral_sandbox.Prelude.{
  ℕ, ◌≤◌, ◌≡◌, refl, ap, ◌∙◌, ◌++◌, Bool, true, false, Option, none, some, List, [], ◌∷◌, arith,
  length, ltb, ◌==◌, if◌then◌else◌, Text,
}
use mathlib.Core.List.{append_assoc}
use ephemeral_sandbox.Layers.Model.{LayerRef, Manifest}
use ephemeral_sandbox.Layers.Changes.Path.{parse, parts_from}
use ephemeral_sandbox.Layers.Planner.{MergedEntry, file}
use ephemeral_sandbox.Layers.View.{
  Node, regular, symlink, directory, whiteout, special, Children, Found, missing, not_a_directory,
  refused, at, Behind, named, whiteout_name, whiteout_path, stat, exists, is_kernel_whiteout,
  is_whiteouted, is_link, lookup_blocked_by_layer, link_from, lookup_symlink_ancestor_by_layer,
  invalid_path, stale_layer, View, shown, broken, Verdict, decided, below, layer_dir,
  read_file_limited, entry_of, read_layer, read_layers, read_entry_limited,
}
use ephemeral_sandbox.Layers.View.Descend.{stat_one}

pub data ManifestFileRead : Type 0 where
  absent_read directory_read symlink_read : ManifestFileRead
  file_read : List ℕ → ℕ → ManifestFileRead
  too_large : ℕ → ℕ → ManifestFileRead

module _ (behind : Behind) where
  unfoldable pub classified_absent : Node → List Text → Bool → Verdict ManifestFileRead
  unfolding lookup_blocked_by_layer
  classified_absent layer path is_missing =
      if lookup_blocked_by_layer behind layer path
      then decided (shown absent_read)
      else if is_missing
      then below
      else decided (broken stale_layer)

  unfoldable pub classified_of : ℕ → Node → List Text → Found → Verdict ManifestFileRead
  unfolding classified_absent
  classified_of max_bytes layer path (at (symlink _ _)) = decided (shown symlink_read)
  classified_of max_bytes layer path (at (regular bytes _)) = decided (
      if max_bytes == 0
      then shown (file_read [] (length bytes))
      else if ltb max_bytes (length bytes)
      then shown (too_large (length bytes) max_bytes)
      else shown (file_read bytes (length bytes)))
  classified_of max_bytes layer path (at (directory _)) = decided (shown directory_read)
  classified_of max_bytes layer path (at whiteout) = decided (broken stale_layer)
  classified_of max_bytes layer path (at special) = decided (broken stale_layer)
  classified_of max_bytes layer path missing = classified_absent layer path true
  classified_of max_bytes layer path not_a_directory = classified_absent layer path false
  classified_of max_bytes layer path refused = decided (broken stale_layer)

  unfoldable pub classify_layer : ℕ → Node → List Text → Verdict ManifestFileRead
  unfolding is_whiteouted stat classified_of lookup_symlink_ancestor_by_layer
  classify_layer max_bytes layer path =
      if is_whiteouted behind layer path
      then decided (shown absent_read)
      else if lookup_symlink_ancestor_by_layer behind layer path
      then decided (shown symlink_read)
      else classified_of max_bytes layer path (stat behind layer path)

  unfoldable pub classify_layers :
      ℕ → (Text → Option Node) → List LayerRef → List Text → View ManifestFileRead
  unfolding layer_dir classify_layer
  classify_layers max_bytes storage [] path = shown absent_read
  classify_layers max_bytes storage (layer ∷ layers) path =
      let rest = classify_layers max_bytes storage layers path in
      elim (layer_dir storage layer) [
        | broken e ↦ broken e
        | shown node ↦ elim (classify_layer max_bytes node path) [
          | decided result ↦ result
          | below ↦ rest
        ]
      ]

  unfoldable pub read_classified :
      (Text → Option Node) → Text → Manifest → ℕ → View ManifestFileRead
  unfolding parse parts_from classify_layers
  read_classified storage path manifest max_bytes = elim (parse path) [
    | none ↦ broken invalid_path
    | some rel ↦ classify_layers max_bytes storage manifest.layers (parts_from [] rel)
  ]

  -- Folders lead from a node to another along a path.
  pub data Leads : Node → List Text → Node → Type 0 where
    here : {node : Node} → Leads node [] node
    into :
        {c : Children} {p : Text} {ps : List Text} {node next : Node}
        → named p c ≡ some next
        → Leads next ps node
        → Leads (directory c) (p ∷ ps) node

  stat-Leads :
      {root node : Node} {before : List Text} (after : List Text)
      → Leads root before node
      → stat behind root (before ++ after) ≡ stat behind node after
  unfolding stat
  stat-Leads after here = refl
  stat-Leads after (into e l) = rw (e, stat) (stat-Leads after l)

  whiteout_path-append :
      (before : List Text) (q : Text) (qs : List Text)
      → whiteout_path (before ++ q ∷ qs) ≡ before ++ whiteout_path (q ∷ qs)
  unfolding whiteout_path
  whiteout_path-append [] q qs = refl
  whiteout_path-append (b ∷ []) q qs = refl
  whiteout_path-append (b ∷ d ∷ before) q qs = ap (◌∷◌ b) (whiteout_path-append (d ∷ before) q qs)

  link_from-reaches :
      (layer : Node) (passed before : List Text) (p q : Text) (qs : List Text)
      → is_link behind (stat behind layer (passed ++ (before ++ p ∷ []))) ≡ true
      → link_from behind layer passed (before ++ p ∷ q ∷ qs) ≡ true
  unfolding link_from
  link_from-reaches layer passed [] p q qs h = rw (h, link_from) refl
  link_from-reaches layer passed (b ∷ []) p q qs h =
      rw (link_from-reaches layer (passed ++ b ∷ []) [] p q qs (rw append_assoc h), link_from)
        (ground arith)
  link_from-reaches layer passed (b ∷ d ∷ before) p q qs h =
      rw
        (
          link_from-reaches layer (passed ++ b ∷ []) (d ∷ before) p q qs (rw append_assoc h),
          link_from,
        )
        (ground arith)

  module _ (root : Node) (c : Children) (before : List Text) (p q target : Text) (qs : List Text)
      (place : ℕ) (bytes : List ℕ) (executable : Bool) (leads : Leads root before (directory c))
      (links : named p c ≡ some (symlink target place))
      (there : behind target place (q ∷ qs) ≡ at (regular bytes executable))
      (no_whiteout : exists behind (behind target place (whiteout_path (q ∷ qs))) ≡ false) where
    abbrev whole : List Text
    whole = before ++ p ∷ q ∷ qs

    stat-behind :
        (r : Text) (rs : List Text)
        → stat behind root (before ++ p ∷ r ∷ rs) ≡ behind target place (r ∷ rs)
    unfolding stat
    stat-behind r rs = stat-Leads (p ∷ r ∷ rs) leads ∙ rw (links, stat) refl

    stat-whiteout :
        (rs : List Text)
        → stat behind root (before ++ p ∷ whiteout_path (q ∷ rs))
          ≡ behind target place (whiteout_path (q ∷ rs))
    unfolding whiteout_path
    stat-whiteout [] = stat-behind (whiteout_name q) []
    stat-whiteout (r ∷ rs) = stat-behind q (whiteout_path (r ∷ rs))

    whiteouted_behind : is_whiteouted behind root whole ≡ false
    unfolding is_whiteouted is_kernel_whiteout whiteout_path
    whiteouted_behind =
        rw
          (
            stat-behind q qs,
            there,
            whiteout_path-append before p (q ∷ qs),
            stat-whiteout qs,
            no_whiteout,
          )
          refl

    small_file : (n : ℕ) → length bytes ≤ n → read_file_limited bytes n ≡ shown bytes
    unfolding read_file_limited
    small_file n h = ground arith

    read_behind :
        (n : ℕ)
        → length bytes ≤ n
        → read_layer behind n root whole ≡ decided (shown (file bytes executable))
    unfolding read_layer entry_of
    read_behind n h = rw (whiteouted_behind, stat-behind q qs, there, entry_of, small_file n h)

    link_before : lookup_symlink_ancestor_by_layer behind root whole ≡ true
    unfolding lookup_symlink_ancestor_by_layer is_link
    link_before =
        link_from-reaches root [] before p q qs
          (rw (stat-Leads (p ∷ []) leads, stat_one behind c p, links) refl)

    classify_behind : (n : ℕ) → classify_layer n root whole ≡ decided (shown symlink_read)
    unfolding classify_layer
    classify_behind n = rw (whiteouted_behind, link_before)

  module _ (storage : Text → Option Node) (n : ℕ) (layer : LayerRef) (layers : List LayerRef)
      (root : Node) (path : List Text) (opens : layer_dir storage layer ≡ shown root) where
    read_first :
        (r : View MergedEntry)
        → read_layer behind n root path ≡ decided r
        → read_layers behind n storage (layer ∷ layers) path ≡ r
    unfolding read_layers
    read_first r e = rw (read_layers, opens, e)

    classify_first :
        (r : View ManifestFileRead)
        → classify_layer n root path ≡ decided r
        → classify_layers n storage (layer ∷ layers) path ≡ r
    unfolding classify_layers
    classify_first r e = rw (classify_layers, opens, e)

  -- A path that leads, at any part but its last, through a symbolic link of the newest layer, after
  -- none but folders, to a file behind the link that has no whiteout marker beside it and is not larger
  -- than the limit: the lookup of the merged view returns the bytes of that file, wherever it is, and
  -- the classified read reports a link.
  pub read_entry_limited-follows :
      (storage : Text → Option Node) (path rel : Text) (manifest : Manifest) (layer : LayerRef)
      (layers : List LayerRef) (root : Node) (c : Children) (before : List Text) (p q target : Text)
      (qs : List Text) (place : ℕ) (bytes : List ℕ) (executable : Bool) (max_bytes : ℕ)
      → parse path ≡ some rel
      → parts_from [] rel ≡ before ++ p ∷ q ∷ qs
      → manifest.layers ≡ layer ∷ layers
      → layer_dir storage layer ≡ shown root
      → Leads root before (directory c)
      → named p c ≡ some (symlink target place)
      → behind target place (q ∷ qs) ≡ at (regular bytes executable)
      → exists behind (behind target place (whiteout_path (q ∷ qs))) ≡ false
      → length bytes ≤ max_bytes
      → (read_entry_limited behind storage path manifest max_bytes ≡ shown (file bytes executable))
        × (read_classified storage path manifest max_bytes ≡ shown symlink_read)
  unfolding read_entry_limited read_classified
  read_entry_limited-follows storage path rel manifest layer layers root c before p q target qs
        place bytes executable max_bytes parsed parts first opens leads links there no_whiteout
        small =
      let whole = before ++ p ∷ q ∷ qs in
      (
        rw (read_entry_limited, parsed, first, parts)
            (read_first storage max_bytes layer layers root whole opens
              (shown (file bytes executable))
              (read_behind root c before p q target qs place bytes executable leads links there
                no_whiteout max_bytes small)),
        rw (read_classified, parsed, first, parts)
            (classify_first storage max_bytes layer layers root whole opens (shown symlink_read) (
              classify_behind root c before p q target qs place bytes executable leads links there
                no_whiteout max_bytes)),
      )
