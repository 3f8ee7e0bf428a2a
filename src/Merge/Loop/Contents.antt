-- ===== src/Merge/Loop/Contents.antt =====
-- merge.rs: `three_way_merge` on whole contents, with the regions that `diff` finds.
use ephemeral_sandbox.Prelude.{ℕ, ◌≡◌, refl, ◌∙◌, true, some, List, [], ◌∷◌, length, subst}
use mathlib.Core.List.{reverse}
use ephemeral_sandbox.Merge.Lines.{Line, eligible, split_lines, join_lines, join-split}
use ephemeral_sandbox.Merge.Diff.{diff}
use ephemeral_sandbox.Merge.Diff.Scripts.{diff-Script}
use ephemeral_sandbox.Merge.Regions.{Region, regions}
use ephemeral_sandbox.Merge.Regions.Same.{regions-same}
use ephemeral_sandbox.Merge.Regions.Follows.{patch, regions-Follows, patch-regions}
use ephemeral_sandbox.Merge.Origins.{OriginBuilder}
use ephemeral_sandbox.Merge.Origins.Expand.{expand, Sourced, IsTiled}
use ephemeral_sandbox.Merge.Loop.{clean, outcome, three_way_merge}
use ephemeral_sandbox.Merge.Loop.Disjoint.{Disjoint, patch_both}
use ephemeral_sandbox.Merge.Loop.Merged.{merge_regions-Disjoint, patch_both-nil}

-- The changed regions of the `diff` of any two lists of lines, put into the first, give the second.
pub patch-diff : (b a : List Line) → patch b a 0 (regions (diff b a)) ≡ a
patch-diff b a = patch-regions b a (diff b a) (diff-Script b a)

-- The base, the active content and the command's content pass the checks of a merge.
pub record IsEligible (base active' command' : List ℕ) : Type 0 where
  pub base_eligible : eligible base ≡ true
  pub active_eligible : eligible active' ≡ true
  pub command_eligible : eligible command' ≡ true

-- The merge is clean with this content, and its origins tile these lines and name the line that is
-- there.
abbrev pub Merges : List ℕ → List ℕ → List ℕ → List ℕ → List Line → Type 0
Merges base active' command' content lines =
    (builder : OriginBuilder) × (three_way_merge base active' command'
      ≡ some (clean content (reverse builder.ranges)))
    × Sourced (split_lines active') (split_lines command') lines (expand builder.ranges)
    × IsTiled (length lines) builder

-- Three eligible contents, of which the changed regions that `diff` finds for the two sides share no
-- base line and do not start at one, merge without a conflict: the content is the lines of the base
-- with both edits made in order, and the origins tile these lines and each names the line that is there.
pub three_way_merge-Disjoint :
    (base active' command' : List ℕ)
    → IsEligible base active' command'
    → let b = split_lines base in
      let a = split_lines active' in
      let c = split_lines command' in
      Disjoint (regions (diff b a)) (regions (diff b c))
      → let merged = patch_both b a c 0 (regions (diff b a)) (regions (diff b c)) in
        Merges base active' command' (join_lines merged) merged
unfolding three_way_merge outcome
three_way_merge-Disjoint base active' command' ok apart =
    let b = split_lines base in
    let a = split_lines active' in
    let c = split_lines command' in
    let (builder, e, right, tiled) =
      merge_regions-Disjoint b a c (regions (diff b a)) (regions (diff b c))
        (regions-Follows b a (diff b a) (diff-Script b a))
        (regions-Follows b c (diff b c) (diff-Script b c)) apart in
    (
      builder,
      rw (ok.base_eligible, ok.active_eligible, ok.command_eligible, e, three_way_merge) refl,
      right,
      tiled,
    )

Disjoint-nil : (ra : List Region) → Disjoint ra []
Disjoint-nil [] = tt
Disjoint-nil (r ∷ ra) = (tt, Disjoint-nil ra)

-- Merged lines that are the lines of a content.
Merges-lines :
    (base active' command' content : List ℕ) (lines : List Line)
    → lines ≡ split_lines content
    → Merges base active' command' (join_lines lines) lines
    → Merges base active' command' content (split_lines content)
Merges-lines base active' command' content lines e m =
    subst (λ bytes. Merges base active' command' bytes (split_lines content)) (join-split content)
      (subst (λ ls. Merges base active' command' (join_lines ls) ls) e m)

-- Where one side left an eligible content as it was, the merge with an eligible one is clean and gives
-- the bytes of the other side; the origins tile its lines and each names the line that is there.
pub three_way_merge-one_side :
    (base changed : List ℕ)
    → eligible base ≡ true
    → eligible changed ≡ true
    → Merges base changed base changed (split_lines changed)
      × Merges base base changed changed (split_lines changed)
unfolding patch_both
three_way_merge-one_side base changed hb hc = (
  Merges-lines base changed base changed
      (patch_both b c b 0 (regions (diff b c)) (regions (diff b b)))
      (rw (regions-same b) (patch_both-nil b c b 0 (regions (diff b c)) ∙ patch-diff b c))
      (three_way_merge-Disjoint base changed base
        (record { base_eligible = hb; active_eligible = hc; command_eligible = hb })
        (rw (regions-same b) (Disjoint-nil (regions (diff b c))))),
  Merges-lines base base changed changed
      (patch_both b b c 0 (regions (diff b b)) (regions (diff b c)))
      (rw (regions-same b, patch_both) (patch-diff b c))
      (three_way_merge-Disjoint base base changed
        (record { base_eligible = hb; active_eligible = hb; command_eligible = hc })
        (rw (regions-same b) tt)),
)
  where
    b : List Line
    b = split_lines base

    c : List Line
    c = split_lines changed
