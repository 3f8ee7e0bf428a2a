-- ===== src/Layers/View/Entry.antt =====
-- stack/projection/mod.rs: `read_entry_limited` on a manifest, and what a bounded read returns.
use ephemeral_sandbox.Prelude.{
  ℕ, ◌≡◌, refl, sym, ap, ◌∙◌, subst, Bool-cases, inl, inr, Option, some, List, [], ◌∷◌, ◌++◌, ◌==◌,
  All, Text,
}
use ephemeral_sandbox.Layers.Model.{LayerRef, Manifest}
use ephemeral_sandbox.Layers.Changes.Path.{parse, parts_from}
use ephemeral_sandbox.Layers.Planner.{MergedEntry}
use ephemeral_sandbox.Layers.View.{
  Node, directory, Children, Behind, View, shown, Verdict, decided, below, layer_dir, read_layer,
  read_layers, read_entry_limited,
}
use ephemeral_sandbox.Layers.View.Overlay.{IsClear, overlay, reads, resumed}
use ephemeral_sandbox.Layers.View.United.{reads-overlay}

-- The folders of the layers, in their order.
abbrev pub Opens : (Text → Option Node) → List LayerRef → List Children → Type 0
Opens storage [] [] = Unit
Opens storage [] (_ ∷ _) = ⊥
Opens storage (_ ∷ _) [] = ⊥
Opens storage (layer ∷ layers) (c ∷ cs) =
    (layer_dir storage layer ≡ shown (directory c)) × Opens storage layers cs

parts_from-cons :
    (part rest : Text) → (p : Text) × (ps : List Text) × (parts_from part rest ≡ p ∷ ps)
unfolding parts_from
parts_from-cons part [] = (part, [], refl)
parts_from-cons part (c ∷ rest) = elim (Bool-cases (c == b'/')) [
  | inl e ↦ (part, parts_from [] rest, rw (e, parts_from))
  | inr e ↦ let (p, ps, h) = parts_from-cons (part ++ c ∷ []) rest in (p, ps, rw (e, parts_from) h)
]

module _ (behind : Behind) (storage : Text → Option Node) (max_bytes : ℕ) where
  read_layers-reads :
      (layers : List LayerRef) (cs : List Children) (path : List Text)
      → Opens storage layers cs
      → read_layers behind max_bytes storage layers path ≡ reads behind max_bytes cs path
  unfolding read_layers reads resumed
  read_layers-reads [] [] path h = refl
  read_layers-reads [] (_ ∷ _) path h = absurd h
  read_layers-reads (_ ∷ _) [] path h = absurd h
  read_layers-reads (layer ∷ layers) (c ∷ cs) path h =
      let verdict = read_layer behind max_bytes (directory c) path in
      rw (read_layers, h.0)
        (same verdict (read_layers behind max_bytes storage layers path)
          ∙ ap (resumed behind verdict) (read_layers-reads layers cs path h.1))
    where
      same :
          (v : Verdict MergedEntry) (rest : View MergedEntry)
          → elim v as (λ _. View MergedEntry) [ decided result ↦ result | below ↦ rest ]
            ≡ resumed behind v rest
      same (decided _) rest = refl
      same below rest = refl

  -- The lookup of a path in the layers of a manifest, one whole layer after the other, is the lookup in
  -- the union of their folders, part by part, where no layer has a symbolic link, a special file or
  -- a folder that it hides itself on the way.
  pub read_entry_limited-overlay :
      (path rel : Text) (manifest : Manifest) (cs : List Children)
      → parse path ≡ some rel
      → Opens storage manifest.layers cs
      → All (λ c. IsClear behind c (parts_from [] rel)) cs
      → read_entry_limited behind storage path manifest max_bytes
        ≡ overlay behind max_bytes cs (parts_from [] rel)
  unfolding read_entry_limited
  read_entry_limited-overlay path rel manifest cs parsed opens clear =
      let (p, ps, cons) = parts_from-cons [] rel in
      rw (read_entry_limited, parsed)
        (read_layers-reads manifest.layers cs (parts_from [] rel) opens
          ∙ subst (λ parts. reads behind max_bytes cs parts ≡ overlay behind max_bytes cs parts)
              (sym cons)
              (reads-overlay behind max_bytes cs p ps
                (subst (λ parts. All (λ c. IsClear behind c parts) cs) cons clear)))
