-- ===== src/Layers/Planner/Images.antt =====
-- stack/publish/resolve.rs: what a merge of a path has read, and what is committed at a path.
use ephemeral_sandbox.Prelude.{
  ℕ, ◌≡◌, refl, sym, ap, ◌∙◌, true, Option, none, some, List, [], ◌∷◌, Text, text_eq, text_eq_iff,
  Bool-cases, inl, inr, find, if◌then◌else◌, subst,
}
use ephemeral_sandbox.Merge.Origins.{LineRange, Origin}
use ephemeral_sandbox.Merge.Loop.{clean, conflict, ineligible, MergeOutcome, three_way_merge}
use ephemeral_sandbox.Layers.Model.{Manifest}
use ephemeral_sandbox.Layers.Changes.{LayerChange, LayerPath, write, change_path}
use ephemeral_sandbox.Layers.Changes.Aggregate.{last_with}
use ephemeral_sandbox.Layers.Planner.{
  World, Checked, pass, RouteKind, source, ignored, and_then, is_source, ResolvedChangeset,
}
use ephemeral_sandbox.Layers.Planner.Plan.{AcceptedChange}
use ephemeral_sandbox.Layers.Planner.Contents.{
  MergedPath, FileBytes, is_file_write, read_file, mergeable, merged_of, read_command_bytes,
  merge_path, clean_origin,
}
use ephemeral_sandbox.Layers.Planner.Resolve.{accepted_path, resolve_change, resolve_changes}
use ephemeral_sandbox.Layers.Planner.Expects.{and_then_pass, pass_injective}

-- The bytes that a manifest has at a path to merge, none where no file is there.
abbrev pub Holds : World → Manifest → LayerPath → List ℕ → Type 0
Holds w manifest path bytes =
    (r : FileBytes) × (read_file w manifest path ≡ pass r) × (mergeable r ≡ some bytes)

pub merge_path-clean :
    (w : World) (base active : Manifest) (path : LayerPath) (command : List ℕ) (m : MergedPath)
    → merge_path w base active path command ≡ pass (some m)
    → (base_bytes active_bytes : List ℕ) × Holds w base path base_bytes
      × Holds w active path active_bytes
      × (three_way_merge base_bytes active_bytes command ≡ some (clean m.bytes m.origin))
unfolding merge_path merged_of
merge_path-clean w base active path command m h =
    let (base_file, b, k) = and_then_pass (read_file w base path) _ (some m) h in
    with_base base_file b (mergeable base_file) refl k
  where
    merged :
        (o : Option MergeOutcome)
        → pass (merged_of o) ≡ pass (some m)
        → o ≡ some (clean m.bytes m.origin)
    merged none p = cc
    merged (some (clean bytes origin)) p =
        ap (λ (x : MergedPath). some (clean x.bytes x.origin)) (same_path _ _ p)
      where
        same_path : (x y : MergedPath) → pass (some x) ≡ pass (some y) → x ≡ y
        same_path x y q = cc
    merged (some conflict) p = cc
    merged (some ineligible) p = cc

    with_active :
        (bytes : List ℕ) (file : FileBytes)
        → Holds w base path bytes
        → read_file w active path ≡ pass file
        → (o : Option (List ℕ)) → mergeable file ≡ o
        → elim o as (λ _. Checked (Option MergedPath)) [
          | none ↦ pass none
          | some active_bytes ↦ pass (merged_of (three_way_merge bytes active_bytes command))
        ]
          ≡ pass (some m)
        → (base_bytes active_bytes : List ℕ) × Holds w base path base_bytes
          × Holds w active path active_bytes
          × (three_way_merge base_bytes active_bytes command ≡ some (clean m.bytes m.origin))
    with_active bytes file b a none e k = cc
    with_active bytes file b a (some active_bytes) e k =
        (bytes, active_bytes, b, (file, a, e), merged _ k)

    with_base :
        (file : FileBytes)
        → read_file w base path ≡ pass file
        → (o : Option (List ℕ)) → mergeable file ≡ o
        → elim o as (λ _. Checked (Option MergedPath)) [
          | none ↦ pass none
          | some bytes ↦ and_then (read_file w active path) (λ active_file.
              elim (mergeable active_file) as (λ _. Checked (Option MergedPath)) [
                | none ↦ pass none
                | some active_bytes ↦ pass (merged_of (three_way_merge bytes active_bytes command))
              ])
        ]
          ≡ pass (some m)
        → (base_bytes active_bytes : List ℕ) × Holds w base path base_bytes
          × Holds w active path active_bytes
          × (three_way_merge base_bytes active_bytes command ≡ some (clean m.bytes m.origin))
    with_base file b none e k = cc
    with_base file b (some bytes) e k =
        let (active_file, a, n) = and_then_pass (read_file w active path) _ (some m) k in
        with_active bytes active_file (file, b, e) a (mergeable active_file) refl n

-- What is committed at a path, for what is accepted there.
pub data Image (w : World) (base : Manifest) (merged : List (Text × MergedPath)) (path : Text)
    : Option AcceptedChange → Option LayerChange → Type 0 where
  nothing : Image w base merged path none none
  resolves :
      (a : AcceptedChange) (r : LayerChange × List (LayerPath × List (LineRange × Origin)))
      → text_eq (accepted_path a) path ≡ true
      → resolve_change w base merged a ≡ pass r
      → Image w base merged path (some a) (some r.0)

pub is_source-source : (route : RouteKind) → is_source route ≡ true → route ≡ source
unfolding is_source
is_source-source source h = refl
is_source-source ignored h = cc

module _ (w : World) (base : Manifest) (merged : List (Text × MergedPath)) where
  resolve_change-path :
      (a : AcceptedChange) (r : LayerChange × List (LayerPath × List (LineRange × Origin)))
      → resolve_change w base merged a ≡ pass r
      → change_path r.0 ≡ accepted_path a
  unfolding resolve_change change_path
  resolve_change-path a r h = elim (Bool-cases (is_file_write a.change)) [
    | inr e ↦ own _ (rw (e, resolve_change) at h) refl
    | inl e ↦ routed a.route (find (accepted_path a) merged) (rw (e, resolve_change) at h)
  ]
    where
      own :
          (x : LayerChange × List (LayerPath × List (LineRange × Origin)))
          → pass x ≡ pass r
          → change_path x.0 ≡ accepted_path a
          → change_path r.0 ≡ accepted_path a
      own x p e =
          subst
            (λ (y : LayerChange × List (LayerPath × List (LineRange × Origin))).
              change_path y.0 ≡ accepted_path a)
            (pass_injective x r p) e

      routed :
          (route : RouteKind) (found : Option MergedPath)
          → elim route
              as (λ _. Checked (LayerChange × List (LayerPath × List (LineRange × Origin)))) [
                | ignored ↦ pass (a.change, (accepted_path a, []) ∷ [])
                | source ↦
                    elim found
                      as (λ _.
                        Checked (LayerChange × List (LayerPath × List (LineRange × Origin)))) [
                          | some resolved ↦ pass (
                            write (accepted_path a) resolved.bytes,
                            (accepted_path a, resolved.origin) ∷ [],
                          )
                          | none ↦ and_then (read_command_bytes w a.change) (λ command.
                              and_then
                                (clean_origin w base (accepted_path a) command)
                                (λ ranges. pass (a.change, (accepted_path a, ranges) ∷ [])))
                        ]
              ]
            ≡ pass r
          → change_path r.0 ≡ accepted_path a
      routed ignored found p = own _ p refl
      routed source (some m) p = own _ p refl
      routed source none p =
          let (command, _, k) = and_then_pass (read_command_bytes w a.change) _ r p in
          let (ranges, _, n) =
            and_then_pass (clean_origin w base (accepted_path a) command) _ r k in
          own _ n refl

  resolve_change-merged :
      (a : AcceptedChange) (m : MergedPath)
      → is_source a.route ≡ true
      → is_file_write a.change ≡ true
      → find (accepted_path a) merged ≡ some m
      → resolve_change w base merged a
        ≡ pass (write (accepted_path a) m.bytes, (accepted_path a, m.origin) ∷ [])
  unfolding resolve_change is_source
  resolve_change-merged a m s f e = rw (f, is_source-source a.route s, e, resolve_change) refl

  pub resolve_changes-Image :
      (path : Text) (accepted : List AcceptedChange) (resolved : ResolvedChangeset)
      (o : Option AcceptedChange) (o' : Option LayerChange)
      → resolve_changes w base merged accepted ≡ pass resolved
      → Image w base merged path o o'
      → Image w base merged path
          (last_with accepted_path path accepted o)
          (last_with change_path path resolved.changes o')
  unfolding resolve_changes last_with
  resolve_changes-Image path [] resolved o o' h i =
      subst
        (λ (r : ResolvedChangeset).
          Image w base merged path o (last_with change_path path r.changes o'))
        (pass_injective _ resolved h) i
  resolve_changes-Image path (a ∷ accepted) resolved o o' h i =
      let (first, e, k) = and_then_pass (resolve_change w base merged a) _ resolved h in
      let (later, f, n) = and_then_pass (resolve_changes w base merged accepted) _ resolved k in
      subst
        (λ (r : ResolvedChangeset).
          Image w base merged path (last_with accepted_path path (a ∷ accepted) o)
            (last_with change_path path r.changes o'))
        (pass_injective _ resolved n)
        (resolve_changes-Image path accepted later _ _ f (next first e))
    where
      next :
          (first : LayerChange × List (LayerPath × List (LineRange × Origin)))
          → resolve_change w base merged a ≡ pass first
          → Image w base merged path
              (if text_eq (accepted_path a) path then some a else o)
              (if text_eq (change_path first.0) path then some first.0 else o')
      next first e = elim (Bool-cases (text_eq (accepted_path a) path)) [
        | inl t ↦ rw (resolve_change-path a first e, t) (resolves a first t e)
        | inr t ↦ rw (resolve_change-path a first e, t) i
      ]

  -- The last committed change at a merged path.
  pub Image-merged :
      (path : Text) (a : AcceptedChange) (m : MergedPath) (o : Option AcceptedChange)
      (o' : Option LayerChange)
      → Image w base merged path o o'
      → o ≡ some a
      → is_source a.route ≡ true
      → is_file_write a.change ≡ true
      → find path merged ≡ some m
      → o' ≡ some (write path m.bytes)
  Image-merged path a m _ _ nothing e s f g = cc
  Image-merged path a m _ _ (resolves a' r t c) e s f g = ap some (committed a (same a' a e) s f)
    where
      same : (x y : AcceptedChange) → some x ≡ some y → x ≡ y
      same x y p = cc

      first :
          (x y : LayerChange × List (LayerPath × List (LineRange × Origin)))
          → pass x ≡ pass y
          → x.0 ≡ y.0
      first x y p =
          ap (λ (z : LayerChange × List (LayerPath × List (LineRange × Origin))). z.0)
            (pass_injective x y p)

      own : accepted_path a' ≡ path
      own = (text_eq_iff (accepted_path a') path).0 t

      committed :
          (b : AcceptedChange)
          → a' ≡ b
          → is_source b.route ≡ true
          → is_file_write b.change ≡ true
          → r.0 ≡ write path m.bytes
      committed b p s f =
          first r (write (accepted_path a') m.bytes, (accepted_path a', m.origin) ∷ [])
            (sym c
              ∙ resolve_change-merged a' m (ap (λ (x : AcceptedChange). is_source x.route) p ∙ s)
                  (ap (λ (x : AcceptedChange). is_file_write x.change) p ∙ f)
                  (ap (λ k. find k merged) own ∙ g))
          ∙ ap (λ k. write k m.bytes) own
