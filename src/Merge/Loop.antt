-- ===== src/Merge/Loop.antt =====
-- merge.rs: `three_way_merge`. The indices `ia` and `ic` are the lists of the regions that are left,
-- `ra` and `rc`; each loop takes fuel, and `Merge.Loop.Runs` has the loops without it.
pub mod Fuel
pub mod Turns
pub mod Disjoint
pub mod Merged
pub mod Overlap
pub mod Contents
pub mod Runs
use ephemeral_sandbox.Prelude.{
  ℕ, zero, suc, ◌+◌, ◌-◌, ◌*◌, min, max, ◌≡◌, refl, Bool, true, false, ◌&&◌, ◌||◌, not, Option,
  none, some, List, [], ◌∷◌, ◌++◌, map, ltb, ◌==◌, if◌then◌else◌, length, get_or, take, drop,
}
use mathlib.Core.List.{reverse}
use ephemeral_sandbox.Merge.Lines.{Line, eligible, split_lines, join_lines}
use ephemeral_sandbox.Merge.Diff.{diff, bytes_eq}
use ephemeral_sandbox.Merge.Regions.{Region, regions}
use ephemeral_sandbox.Merge.Origins.{
  Origin, LineRange, OriginBuilder, builder_default, push_active, push_command, command, active,
}

pub data MergeOutcome : Type 0 where
  clean : List ℕ → List (LineRange × Origin) → MergeOutcome
  conflict ineligible : MergeOutcome

-- The lines and the origins that the loop leaves, or its early return.
pub data LoopResult : Type 0 where
  done : List Line → OriginBuilder → LoopResult
  overlap : LoopResult

unfoldable pub lines_eq : List Line → List Line → Bool
unfolding bytes_eq
lines_eq [] [] = true
lines_eq [] (_ ∷ _) = false
lines_eq (_ ∷ _) [] = false
lines_eq (x ∷ xs) (y ∷ ys) = elim (bytes_eq x y) [ true ↦ lines_eq xs ys | false ↦ false ]

-- What the inner loop has gathered of one side.
pub record Side : Type 0 where
  pub lines : List Line
  pub saw : Bool
  pub rest : List Region

-- `r.b0 < cb1 || r.b0 == bi`.
unfoldable pub touches : ℕ → ℕ → Region → Bool
touches bi cb1 r = ltb r.b0 cb1 || r.b0 == bi

unfoldable pub picked : List Line → Region → List Line
picked side r = map (λ i. get_or side i []) r.repl

-- One `if let Some(r)` of the inner loop: the side, `cb1` and whether it grew.
unfoldable pub absorb : List Line → ℕ → ℕ → Side → List Region → Side × ℕ × Bool
unfolding touches picked
absorb src bi cb1 s [] = (s, cb1, false)
absorb src bi cb1 s (r ∷ rs) =
    if touches bi cb1 r
    then (record { lines = s.lines ++ picked src r; saw = true; rest = rs }, max cb1 r.b1, true)
    else (s, cb1, false)

-- The inner loop; each turn but the last uses up a region, so fuel for each region is given.
unfoldable pub gather : ℕ → List Line → List Line → ℕ → ℕ → Side → Side → Side × Side × ℕ
unfolding absorb
gather zero a c bi cb1 sa sc = (sa, sc, cb1)
gather (suc fuel) a c bi cb1 sa sc =
    let (sa', cb1', grew_a) = absorb a bi cb1 sa sa.rest in
    let (sc', cb1'', grew_c) = absorb c bi cb1' sc sc.rest in
    let again = gather fuel a c bi cb1'' sa' sc' in
    if grew_a || grew_c then again else (sa', sc', cb1'')

-- `na.min(nc)`, and `none` where both are `usize::MAX`.
unfoldable pub next_start : List Region → List Region → Option ℕ
next_start [] [] = none
next_start (r ∷ _) [] = some r.b0
next_start [] (s ∷ _) = some s.b0
next_start (r ∷ _) (s ∷ _) = some (min r.b0 s.b0)

pub record Progress : Type 0 where
  pub bi : ℕ
  pub a_cursor : ℕ
  pub out : List Line
  pub builder : OriginBuilder

-- The unchanged lines before the next region.
unfoldable pub skip_to : List Line → ℕ → Progress → Progress
skip_to b start p =
    let count = start - p.bi in
    if ltb p.bi start
    then record {
      bi = start;
      a_cursor = p.a_cursor + count;
      out = p.out ++ take count (drop p.bi b);
      builder = push_active p.a_cursor count p.builder;
    }
    else p

-- The `match (saw_a, saw_c)`; `none` is the conflict.
unfoldable pub settle : List Line → Progress → Side → Side → ℕ → Option Progress
unfolding lines_eq
settle b p sa sc cb1 = elim sa.saw [
  | true ↦ elim sc.saw [
    | false ↦ some (record {
      bi = min cb1 (length b);
      a_cursor = p.a_cursor + length sa.lines;
      out = p.out ++ sa.lines;
      builder = push_active p.a_cursor (length sa.lines) p.builder;
    })
    | true ↦
        if lines_eq sa.lines sc.lines
        then some (record {
          bi = min cb1 (length b);
          a_cursor = p.a_cursor + length sa.lines;
          out = p.out ++ sa.lines;
          builder = push_active p.a_cursor (length sa.lines) p.builder;
        })
        else none
  ]
  | false ↦ elim sc.saw [
    | true ↦ some (record {
      bi = min cb1 (length b);
      a_cursor = p.a_cursor + (cb1 - p.bi);
      out = p.out ++ sc.lines;
      builder = push_command (length sc.lines) p.builder;
    })
    | false ↦ some (record {
      bi = min (p.bi + 1) (length b);
      a_cursor = if ltb p.bi (length b) then p.a_cursor + 1 else p.a_cursor;
      out = if ltb p.bi (length b) then p.out ++ get_or b p.bi [] ∷ [] else p.out;
      builder = if ltb p.bi (length b) then push_active p.a_cursor 1 p.builder else p.builder;
    })
  ]
]

-- Both regions lists gone: the rest of the base, and `break`.
unfoldable pub finish : List Line → Progress → LoopResult
finish b p = done (p.out ++ drop p.bi b) (push_active p.a_cursor (length b - p.bi) p.builder)

abbrev pub fresh_side : List Region → Side
fresh_side rs = record { lines = []; saw = false; rest = rs }

-- One turn of the outer loop from a start: the regions that are left and the progress.
unfoldable pub turn :
    List Line
    → List Line
    → List Line
    → ℕ
    → List Region
    → List Region
    → Progress
    → Side × Side × Option Progress
turn b a c start ra rc p =
    let p' = skip_to b start p in
    let (sa, sc, cb1) =
      gather (length ra + length rc) a c p'.bi p'.bi (fresh_side ra) (fresh_side rc) in
    (sa, sc, settle b p' sa sc cb1)

-- The outer loop; `none` is fuel that has run out.
unfoldable pub merge_loop :
    ℕ → List Line → List Line → List Line → List Region → List Region → Progress → Option LoopResult
unfolding next_start finish
merge_loop zero b a c ra rc p = none
merge_loop (suc fuel) b a c ra rc p = elim (next_start ra rc) [
  | none ↦ some (finish b p)
  | some start ↦
      let (sa, sc, settled) = turn b a c start ra rc p in
      elim settled [ none ↦ some overlap | some p' ↦ merge_loop fuel b a c sa.rest sc.rest p' ]
]

abbrev pub start_progress : Progress
start_progress = record { bi = 0; a_cursor = 0; out = []; builder = builder_default }

-- The loop on two lists of regions, with fuel for each region and one more.
unfoldable pub merge_regions :
    List Line → List Line → List Line → List Region → List Region → Option LoopResult
unfolding merge_loop turn gather skip_to settle
merge_regions b a c ra rc = merge_loop (suc (length ra + length rc)) b a c ra rc start_progress

-- The builder has its last range first.
unfoldable pub outcome : LoopResult → MergeOutcome
outcome (done out builder) = clean (join_lines out) (reverse builder.ranges)
outcome overlap = conflict

unfoldable pub three_way_merge : List ℕ → List ℕ → List ℕ → Option MergeOutcome
unfolding merge_regions outcome
three_way_merge base active' command' =
    if not (eligible base) || not (eligible active') || not (eligible command')
    then some ineligible
    else elim (merge_regions b a c (regions (diff b a)) (regions (diff b c))) [
      | none ↦ none
      | some result ↦ some (outcome result)
    ]
  where
    b : List Line
    b = split_lines base

    a : List Line
    a = split_lines active'

    c : List Line
    c = split_lines command'
