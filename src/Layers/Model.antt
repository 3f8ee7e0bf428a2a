-- ===== src/Layers/Model.antt =====
-- model/mod.rs: `LayerRef`, `Manifest`; lib.rs and storage/fs.rs: the names of layers and folders.
-- A version is a natural number: the first manifest has version 0, and a version only grows.
use ephemeral_sandbox.Prelude.{
  ℕ, ◌≡◌, refl, ◌↔◌, Bool, true, false, ◌&&◌, Option, none, some, List, [], ◌∷◌, ◌++◌, arith, ◌==◌,
  if◌then◌else◌, length, Text, text, text_eq, text_eq_iff, padded,
}

pub record LayerRef : Type 0 where
  pub layer_id : Text
  pub path : Text

pub record Manifest : Type 0 where
  pub version : ℕ
  pub layers : List LayerRef
  pub schema_version : ℕ

abbrev pub manifest_schema_version : ℕ
manifest_schema_version = 1

-- `Manifest::new`; `none` is `UnsupportedSchemaVersion`.
unfoldable pub manifest_new : ℕ → List LayerRef → ℕ → Option Manifest
manifest_new version layers schema_version =
    if schema_version == manifest_schema_version
    then some (record { version = version; layers = layers; schema_version = schema_version })
    else none

unfoldable pub depth : Manifest → ℕ
depth m = length m.layers

unfoldable pub layer_eq : LayerRef → LayerRef → Bool
layer_eq l m = text_eq l.layer_id m.layer_id && text_eq l.path m.path

pub layer_eq_iff : (l m : LayerRef) → (layer_eq l m ≡ true) ↔ (l ≡ m)
unfolding layer_eq
layer_eq_iff l m = ground (arith, text_eq_iff l.layer_id m.layer_id, text_eq_iff l.path m.path)

unfoldable pub layers_eq : List LayerRef → List LayerRef → Bool
unfolding layer_eq
layers_eq [] [] = true
layers_eq [] (_ ∷ _) = false
layers_eq (_ ∷ _) [] = false
layers_eq (l ∷ ls) (m ∷ ms) = layer_eq l m && layers_eq ls ms

pub layers_eq→eq : (ls ms : List LayerRef) → layers_eq ls ms ≡ true → ls ≡ ms
unfolding layers_eq
layers_eq→eq [] [] h = refl
layers_eq→eq [] (_ ∷ _) h = cc
layers_eq→eq (_ ∷ _) [] h = cc
layers_eq→eq (l ∷ ls) (m ∷ ms) h = ground (arith, layer_eq_iff l m, layers_eq→eq ls ms)

pub layers_eq_refl : (ls : List LayerRef) → layers_eq ls ls ≡ true
unfolding layers_eq
layers_eq_refl [] = refl
layers_eq_refl (l ∷ ls) = ground (arith, layer_eq_iff l l, layers_eq_refl ls)

-- Membership by the derived equality: `BTreeSet<LayerRef>::contains`.
unfoldable pub contains : List LayerRef → LayerRef → Bool
contains [] l = false
contains (m ∷ ms) l = elim (layer_eq m l) [ true ↦ true | false ↦ contains ms l ]

abbrev pub base_layer_prefix : ℕ
base_layer_prefix = b'B'

unfoldable pub starts_with : Text → ℕ → Bool
starts_with [] c = false
starts_with (x ∷ xs) c = x == c

-- `format!("{LAYERS_DIR}/{layer_id}")`.
unfoldable pub layer_path : Text → Text
layer_path layer_id = text "layers/" ++ layer_id

-- `format!("{prefix}{next_version:06}-{:08x}", next_unique())`.
unfoldable pub format_layer_id : ℕ → ℕ → ℕ → Text
unfolding padded
format_layer_id prefix next_version unique =
    prefix ∷ (padded 6 10 next_version ++ (b'-' ∷ padded 8 16 unique))
