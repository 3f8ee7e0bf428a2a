-- ===== src/Layers/Changes.antt =====
-- model/mod.rs: `LayerChange`, `aggregate_layer_changes`, `published_layer_bytes`. A `LayerPath` is the
-- list of its code points; a `BTreeMap` by path is a list in the order of the paths.
pub mod Aggregate
pub mod Path
use ephemeral_sandbox.Prelude.{
  ℕ, ◌+◌, ◌-◌, ◌^◌, min, Bool, true, false, Option, none, some, List, [], ◌∷◌, length, Text, text,
  text_eq, text_lt, if◌then◌else◌, ltb, ◌==◌,
}

abbrev pub LayerPath : Type 0
LayerPath = Text

pub data LayerChange : Type 0 where
  write : LayerPath → List ℕ → LayerChange
  write_file : LayerPath → Text → ℕ → LayerChange
  delete : LayerPath → LayerChange
  symlink : LayerPath → Text → LayerChange
  directory : LayerPath → LayerChange
  opaque_dir : LayerPath → LayerChange

unfoldable pub kind : LayerChange → Text
kind (write _ _) = text "write"
kind (write_file _ _ _) = text "write"
kind (delete _) = text "delete"
kind (symlink _ _) = text "symlink"
kind (directory _) = text "directory"
kind (opaque_dir _) = text "opaque_dir"

unfoldable pub change_path : LayerChange → LayerPath
change_path (write path _) = path
change_path (write_file path _ _) = path
change_path (delete path) = path
change_path (symlink path _) = path
change_path (directory path) = path
change_path (opaque_dir path) = path

module _ {A : Type 0} (key : A → Text) where
  -- `BTreeMap::insert`, the key being a part of the value.
  unfoldable pub put : A → List A → List A
  unfolding text_eq text_lt
  put a [] = a ∷ []
  put a (x ∷ xs) =
      let rest = put a xs in
      if text_eq (key x) (key a)
      then a ∷ xs
      else if text_lt (key a) (key x)
      then a ∷ x ∷ xs
      else x ∷ rest

  unfoldable pub lookup : Text → List A → Option A
  unfolding text_eq
  lookup k [] = none
  lookup k (x ∷ xs) = let rest = lookup k xs in if text_eq (key x) k then some x else rest

  -- The map after all insertions, in order.
  unfoldable pub put_all : List A → List A → List A
  unfolding put
  put_all [] m = m
  put_all (a ∷ as') m = put_all as' (put a m)

unfoldable pub aggregate_layer_changes : List LayerChange → List LayerChange
unfolding put_all change_path
aggregate_layer_changes changes = put_all change_path changes []

abbrev pub u64_max : ℕ
u64_max = 2 ^ 64 - 1

unfoldable pub change_bytes : LayerChange → ℕ
change_bytes (write _ content) = min (length content) u64_max
change_bytes (write_file _ _ size) = size
change_bytes (delete _) = 0
change_bytes (symlink _ _) = 0
change_bytes (directory _) = 0
change_bytes (opaque_dir _) = 0

-- `fold(total, u64::saturating_add)`.
unfoldable pub bytes_from : ℕ → List LayerChange → ℕ
unfolding change_bytes
bytes_from total [] = total
bytes_from total (change ∷ changes) = bytes_from (min (total + change_bytes change) u64_max) changes

unfoldable pub published_layer_bytes : List LayerChange → ℕ
unfolding bytes_from
published_layer_bytes changes = bytes_from 0 changes
