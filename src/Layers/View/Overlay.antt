-- ===== src/Layers/View/Overlay.antt =====
-- stack/projection/mod.rs: the union of the folders of layers, in which a path is looked up part by
-- part, and the loop of the lookup over whole layers.
use ephemeral_sandbox.Prelude.{
  ℕ, ◌≡◌, Bool, false, ◌||◌, Option, none, some, List, [], ◌∷◌, if◌then◌else◌, Text,
}
use ephemeral_sandbox.Layers.Planner.{MergedEntry, absent, file, link, folder}
use ephemeral_sandbox.Layers.View.{
  Node, regular, symlink, directory, whiteout, special, Children, Found, missing, at, Behind,
  opaque_marker, whiteout_name, named, exists, is_kernel_whiteout, stale_layer, View, shown, broken,
  Verdict, decided, below, read_file_limited, read_layer,
}

-- What is under a name.
abbrev pub found_at : Option Node → Found
found_at none = missing
found_at (some node) = at node

module _ (behind : Behind) where
  -- A name is hidden in all lower folders: by a whiteout in its place, or by a file `.wh.` before it.
  abbrev pub hides : Text → Children → Bool
  hides p c =
      is_kernel_whiteout behind (found_at (named p c))
      || exists behind (found_at (named (whiteout_name p) c))

  abbrev pub is_opaque : Children → Bool
  is_opaque c = exists behind (found_at (named opaque_marker c))

  -- The folders that are united under a name, the newest first, and no more below one that is opaque,
  -- hidden, or no folder.
  unfoldable pub united : Text → List Children → List Children
  united p [] = []
  united p (c ∷ cs) =
      let rest = united p cs in
      if hides p c then [] else elim (named p c) [
        | none ↦ rest
        | some node ↦ elim node [ directory e ↦ e ∷ (if is_opaque e then [] else rest) | _ ↦ [] ]
      ]

  unfoldable pub entry_at : ℕ → Node → View MergedEntry
  entry_at max_bytes (regular bytes executable) = elim (read_file_limited bytes max_bytes) [
    | shown content ↦ shown (file content executable)
    | broken e ↦ broken e
  ]
  entry_at max_bytes (symlink target _) = shown (link target)
  entry_at max_bytes (directory _) = shown folder
  entry_at max_bytes whiteout = shown absent
  entry_at max_bytes special = broken stale_layer

  -- The newest folder that has the name or hides it.
  unfoldable pub topmost : ℕ → Text → List Children → View MergedEntry
  unfolding entry_at
  topmost max_bytes p [] = shown absent
  topmost max_bytes p (c ∷ cs) =
      let rest = topmost max_bytes p cs in
      if hides p c
      then shown absent
      else elim (named p c) [ none ↦ rest | some node ↦ entry_at max_bytes node ]

  -- The lookup in the union, part by part.
  unfoldable pub overlay : ℕ → List Children → List Text → View MergedEntry
  unfolding united topmost
  overlay max_bytes cs [] = shown folder
  overlay max_bytes cs (p ∷ []) = topmost max_bytes p cs
  overlay max_bytes cs (p ∷ q ∷ ps) = overlay max_bytes (united p cs) (q ∷ ps)

  -- On its way to the end of the path a layer has no symbolic link and no special file, and no folder
  -- that it hides itself.
  abbrev pub IsClear : Children → List Text → Type 0
  IsClear c [] = Unit
  IsClear c (p ∷ []) = Unit
  IsClear c (p ∷ q ∷ ps) = elim (named p c) as (λ _. Type 0) [
    | none ↦ Unit
    | some node ↦ elim node as (λ _. Type 0) [
      | directory e ↦ (hides p c ≡ false) × IsClear e (q ∷ ps)
      | regular _ _ ↦ Unit
      | whiteout ↦ Unit
      | symlink _ _ ↦ ⊥
      | special ↦ ⊥
    ]
  ]

  -- The loop of the lookup over the folders of the layers.
  unfoldable pub resumed : Verdict MergedEntry → View MergedEntry → View MergedEntry
  resumed (decided result) rest = result
  resumed below rest = rest

  unfoldable pub reads : ℕ → List Children → List Text → View MergedEntry
  unfolding resumed
  reads max_bytes [] path = shown absent
  reads max_bytes (c ∷ cs) path =
      resumed (read_layer behind max_bytes (directory c) path) (reads max_bytes cs path)
