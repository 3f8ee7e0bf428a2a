-- ===== src/Examples/Viewing.antt =====
-- Two layers, one over the other, and what the merged view shows.
use ephemeral_sandbox.Prelude.{
  ◌≡◌, refl, true, false, Option, some, [], ◌∷◌, arith, Text, text, text_eq, if◌then◌else◌,
}
use ephemeral_sandbox.Layers.Model.{LayerRef, Manifest}
use ephemeral_sandbox.Layers.Changes.Path.{parse, parts_from}
use ephemeral_sandbox.Layers.Planner.{absent, file}
use ephemeral_sandbox.Layers.View.{
  Node, regular, symlink, directory, whiteout, Children, no_more, child, missing, at, Behind, named,
  whiteout_path, is_kernel_whiteout, exists, shown, layer_dir, read_entry_limited,
}
use ephemeral_sandbox.Layers.View.Overlay.{overlay}
use ephemeral_sandbox.Layers.View.Entry.{read_entry_limited-overlay}
use ephemeral_sandbox.Layers.View.Classified.{
  symlink_read, read_classified, here, read_entry_limited-follows,
}

-- The upper layer has `a/x`, deletes `a/z`, and has a link `l`; the lower one has `a/x` to `a/z`.
abbrev upper : Children
upper =
    child (text "a")
      (directory (child (text "x") (regular (1 ∷ []) false) (child (text "z") whiteout no_more)))
      (child (text "l") (symlink (text "/etc") 0) no_more)

abbrev lower : Children
lower =
    child (text "a")
      (directory (
        child (text "x") (regular (2 ∷ []) false) (
          child (text "y") (regular (3 ∷ []) true)
            (child (text "z") (regular (4 ∷ []) false) no_more))))
      no_more

abbrev layer : Text → LayerRef
layer id = record { layer_id = id; path = id }

abbrev storage : Text → Option Node
storage path = some (if text_eq path (text "u") then directory upper else directory lower)

abbrev manifest : Manifest
manifest = record {
  version = 2;
  layers = layer (text "u") ∷ layer (text "w") ∷ [];
  schema_version = 1;
}

-- Behind `/etc` there is a file `p`.
abbrev behind : Behind
behind target place path = elim path [
  | [] ↦ missing
  | p ∷ _ ↦ if text_eq p (text "p") then at (regular (7 ∷ []) false) else missing
]

parse_ay : parse (text "a/y") ≡ some (text "a/y")
unfolding parse
parse_ay = refl

parse_lp : parse (text "l/p") ≡ some (text "l/p")
unfolding parse
parse_lp = refl

upper_test : layer_dir storage (layer (text "u")) ≡ shown (directory upper)
unfolding layer_dir text_eq
upper_test = refl

lower_test : layer_dir storage (layer (text "w")) ≡ shown (directory lower)
unfolding layer_dir text_eq
lower_test = refl

read_test :
    (read_entry_limited behind storage (text "a/x") manifest 9 ≡ shown (file (1 ∷ []) false))
    × (read_entry_limited behind storage (text "a/y") manifest 9 ≡ shown (file (3 ∷ []) true))
    × (read_entry_limited behind storage (text "a/z") manifest 9 ≡ shown absent)
unfolding read_entry_limited text_eq
read_test = (refl, refl, refl)

read_entry_limited-overlay_example :
    read_entry_limited behind storage (text "a/y") manifest 9
    ≡ overlay behind 9 (upper ∷ lower ∷ []) (parts_from [] (text "a/y"))
unfolding parts_from named text_eq is_kernel_whiteout exists
read_entry_limited-overlay_example =
    read_entry_limited-overlay behind storage 9 (text "a/y") (text "a/y") manifest
      (upper ∷ lower ∷ []) parse_ay (upper_test, (lower_test, tt)) ((refl, tt), ((refl, tt), tt))

read_entry_limited-follows_example :
    (read_entry_limited behind storage (text "l/p") manifest 9 ≡ shown (file (7 ∷ []) false))
    × (read_classified behind storage (text "l/p") manifest 9 ≡ shown symlink_read)
unfolding parts_from named text_eq exists whiteout_path
read_entry_limited-follows_example =
    read_entry_limited-follows behind storage (text "l/p") (text "l/p") manifest (layer (text "u"))
      (layer (text "w") ∷ []) (directory upper) upper [] (text "l") (text "p") (text "/etc") [] 0
      (7 ∷ []) false 9 parse_lp refl refl upper_test here refl refl refl (omega arith)
