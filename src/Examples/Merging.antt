-- ===== src/Examples/Merging.antt =====
-- merge.rs on short contents.
use ephemeral_sandbox.Prelude.{
  ℕ, ◌≡◌, ◌≢◌, ◌↔◌, refl, inl, some, List, [], ◌∷◌, ◌++◌, map, arith, get_elem?,
}
use ephemeral_sandbox.Merge.Lines.{
  Line, contains, eligible, split_lines, join_lines, join-split, split-join, newline_ended,
  last_line,
}
use ephemeral_sandbox.Merge.Diff.{eq, del, ins, diff, bytes_eq}
use ephemeral_sandbox.Merge.Regions.{Region, regions}
use ephemeral_sandbox.Merge.Regions.Follows.{Script, patch}
use ephemeral_sandbox.Merge.Origins.{
  active, command, OriginBuilder, builder_default, push_active, push_command,
}
use ephemeral_sandbox.Merge.Origins.Expand.{
  expand, actives, IsTiled, expand-push_active, push_active-IsTiled,
}
use ephemeral_sandbox.Merge.Loop.{
  clean, done, overlap, LoopResult, MergeOutcome, merge_regions, three_way_merge, picked,
}
use ephemeral_sandbox.Merge.Loop.Fuel.{merge_regions-total}
use ephemeral_sandbox.Merge.Loop.Runs.{MergesTo, three_way_merge-total}
use ephemeral_sandbox.Merge.Diff.Scripts.{diff-Script}
use ephemeral_sandbox.Merge.Loop.Disjoint.{Disjoint, patch_both}
use ephemeral_sandbox.Merge.Loop.Contents.{
  IsEligible, Merges, three_way_merge-Disjoint, three_way_merge-one_side, patch-diff,
}
use ephemeral_sandbox.Merge.Loop.Overlap.{
  merge_regions-Meets, outer_regions, whole_region, merge_regions-misattributes,
}

split_test :
    split_lines (b'a' ∷ 13 ∷ 10 ∷ 10 ∷ b'b' ∷ [])
    ≡ (b'a' ∷ 13 ∷ 10 ∷ []) ∷ (10 ∷ []) ∷ (b'b' ∷ []) ∷ []
unfolding split_lines
split_test = refl

diff_test :
    diff ((1 ∷ []) ∷ (2 ∷ []) ∷ (3 ∷ []) ∷ []) ((1 ∷ []) ∷ (4 ∷ []) ∷ (3 ∷ []) ∷ [])
    ≡ record { kind = eq; b = 0 }
      ∷ record { kind = del; b = 0 }
      ∷ record { kind = ins; b = 1 }
      ∷ record { kind = eq; b = 2 }
      ∷ []
unfolding diff bytes_eq
diff_test = refl

-- Two edits of different lines.
merge_test :
    three_way_merge
      (b'1' ∷ 10 ∷ b'2' ∷ 10 ∷ b'3' ∷ 10 ∷ [])
      (b'x' ∷ 10 ∷ b'2' ∷ 10 ∷ b'3' ∷ 10 ∷ [])
      (b'1' ∷ 10 ∷ b'2' ∷ 10 ∷ b'y' ∷ [])
    ≡ some (
        clean (b'x' ∷ 10 ∷ b'2' ∷ 10 ∷ b'y' ∷ []) (
          (record { start = 1; len = 2 }, active 0)
          ∷ (record { start = 3; len = 1 }, command)
          ∷ []))
unfolding three_way_merge eligible split_lines join_lines diff bytes_eq regions push_active
    push_command
merge_test = refl

-- A kept line between two changed ones, all of them replaced by the command: the second line of the
-- result is given the origin of the kept line.
misattributed_test :
    three_way_merge
      (b'x' ∷ 10 ∷ b'k' ∷ 10 ∷ b'z' ∷ 10 ∷ [])
      (b'p' ∷ 10 ∷ b'k' ∷ 10 ∷ b'q' ∷ 10 ∷ [])
      (b'p' ∷ 10 ∷ b'q' ∷ 10 ∷ [])
    ≡ some (clean (b'p' ∷ 10 ∷ b'q' ∷ 10 ∷ []) ((record { start = 1; len = 2 }, active 0) ∷ []))
unfolding three_way_merge eligible split_lines join_lines diff bytes_eq regions push_active
    push_command
misattributed_test = refl

-- Three lines, of which the active side changes the first and the command the last.
abbrev base_lines : List Line
base_lines = (b'1' ∷ []) ∷ (b'2' ∷ []) ∷ (b'3' ∷ []) ∷ []

abbrev active_lines : List Line
active_lines = (b'x' ∷ []) ∷ (b'2' ∷ []) ∷ (b'3' ∷ []) ∷ []

abbrev command_lines : List Line
command_lines = (b'1' ∷ []) ∷ (b'2' ∷ []) ∷ (b'y' ∷ []) ∷ []

abbrev first_region : Region
first_region = record { b0 = 0; b1 = 1; repl = 0 ∷ [] }

abbrev last_region : Region
last_region = record { b0 = 2; b1 = 3; repl = 2 ∷ [] }

abbrev base_bytes : List ℕ
base_bytes = b'1' ∷ 10 ∷ b'2' ∷ 10 ∷ b'3' ∷ 10 ∷ []

abbrev active_bytes : List ℕ
active_bytes = b'x' ∷ 10 ∷ b'2' ∷ 10 ∷ b'3' ∷ 10 ∷ []

abbrev command_bytes : List ℕ
command_bytes = b'1' ∷ 10 ∷ b'2' ∷ 10 ∷ b'y' ∷ []

bytes-IsEligible : IsEligible base_bytes active_bytes command_bytes
unfolding eligible
bytes-IsEligible = record { base_eligible = refl; active_eligible = refl; command_eligible = refl }

bytes-Disjoint :
    Disjoint
      (regions (diff (split_lines base_bytes) (split_lines active_bytes)))
      (regions (diff (split_lines base_bytes) (split_lines command_bytes)))
unfolding split_lines diff bytes_eq regions
bytes-Disjoint = (((inl (omega arith), ground arith), tt), tt)

three_way_merge-Disjoint_example :
    Merges base_bytes active_bytes command_bytes
      (join_lines (
        patch_both
          (split_lines base_bytes)
          (split_lines active_bytes)
          (split_lines command_bytes)
          0
          (regions (diff (split_lines base_bytes) (split_lines active_bytes)))
          (regions (diff (split_lines base_bytes) (split_lines command_bytes)))))
      (patch_both
        (split_lines base_bytes)
        (split_lines active_bytes)
        (split_lines command_bytes)
        0
        (regions (diff (split_lines base_bytes) (split_lines active_bytes)))
        (regions (diff (split_lines base_bytes) (split_lines command_bytes))))
three_way_merge-Disjoint_example =
    three_way_merge-Disjoint base_bytes active_bytes command_bytes bytes-IsEligible bytes-Disjoint

three_way_merge-one_side_example :
    Merges base_bytes active_bytes base_bytes active_bytes (split_lines active_bytes)
    × Merges base_bytes base_bytes active_bytes active_bytes (split_lines active_bytes)
three_way_merge-one_side_example =
    three_way_merge-one_side base_bytes active_bytes bytes-IsEligible.base_eligible
      bytes-IsEligible.active_eligible

merge_regions-Meets_example :
    (merge_regions base_lines active_lines command_lines (first_region ∷ []) (first_region ∷ [])
      ≡ some overlap)
    ↔ (picked active_lines first_region ≢ picked command_lines first_region)
merge_regions-Meets_example =
    merge_regions-Meets base_lines active_lines command_lines first_region first_region
      (omega arith) (omega arith) (inl refl)

abbrev kept : Line
kept = 2 ∷ []

abbrev new_line : Line
new_line = 5 ∷ []

two-five : kept ≢ new_line
two-five = ground arith

merge_regions-misattributes_example :
    (builder : OriginBuilder) × (merge_regions
        ((1 ∷ []) ∷ (2 ∷ []) ∷ (3 ∷ []) ∷ [])
        ((4 ∷ []) ∷ (2 ∷ []) ∷ (5 ∷ []) ∷ [])
        ((4 ∷ []) ∷ (5 ∷ []) ∷ [])
        outer_regions
        whole_region
      ≡ some (done ((4 ∷ []) ∷ (5 ∷ []) ∷ []) builder))
    × (expand builder.ranges ≡ active 0 ∷ active 1 ∷ [])
    × (get_elem? {A = Line} ((4 ∷ []) ∷ kept ∷ new_line ∷ []) 1 ≢ some new_line)
merge_regions-misattributes_example =
    merge_regions-misattributes (1 ∷ []) (2 ∷ []) (3 ∷ []) (4 ∷ []) (5 ∷ []) two-five

merge_regions-total_example :
    (result : LoopResult) × (merge_regions base_lines active_lines command_lines
        (first_region ∷ [])
        (last_region ∷ [])
      ≡ some result)
merge_regions-total_example =
    merge_regions-total base_lines active_lines command_lines (first_region ∷ []) (last_region ∷ [])

three_way_merge-total_example :
    (outcome : MergeOutcome) × (three_way_merge base_bytes active_bytes command_bytes
      ≡ some outcome)
    × MergesTo base_bytes active_bytes command_bytes outcome
three_way_merge-total_example = three_way_merge-total base_bytes active_bytes command_bytes

join-split_example :
    join_lines (split_lines (b'a' ∷ 13 ∷ 10 ∷ b'b' ∷ [])) ≡ b'a' ∷ 13 ∷ 10 ∷ b'b' ∷ []
join-split_example = join-split (b'a' ∷ 13 ∷ 10 ∷ b'b' ∷ [])

split-join_example :
    split_lines (join_lines (map newline_ended ((b'a' ∷ []) ∷ [] ∷ []) ++ last_line (b'b' ∷ [])))
    ≡ map newline_ended ((b'a' ∷ []) ∷ [] ∷ []) ++ last_line (b'b' ∷ [])
unfolding contains
split-join_example = split-join ((b'a' ∷ []) ∷ [] ∷ []) (b'b' ∷ []) ((refl, (refl, tt))) refl

diff-Script_example : Script base_lines command_lines 0 0 (diff base_lines command_lines)
diff-Script_example = diff-Script base_lines command_lines

patch-diff_example :
    patch base_lines active_lines 0 (regions (diff base_lines active_lines)) ≡ active_lines
patch-diff_example = patch-diff base_lines active_lines

expand-push_active_example :
    expand (push_active 4 2 (push_active 3 1 builder_default)).ranges
    ≡ expand (push_active 3 1 builder_default).ranges ++ actives 4 2
expand-push_active_example = expand-push_active 4 2 (push_active 3 1 builder_default)

push_active-IsTiled_example : IsTiled 3 (push_active 4 3 builder_default)
push_active-IsTiled_example =
    push_active-IsTiled 4 3 0 3 builder_default (omega arith)
      (record { counted = refl; tiled = refl })
