-- ===== src/Merge/Loop/Runs.antt =====
-- merge.rs: the two loops of `three_way_merge` as they are written, with no fuel, as relations.
use ephemeral_sandbox.Prelude.{
  ℕ, zero, suc, ◌+◌, ◌≤◌, ◌<◌, ◌≡◌, refl, true, false, Bool, ◌||◌, not, none, some, List, [], ◌∷◌,
  arith, length, Bool-cases, Option-cases, inl, inr, if◌then◌else◌,
}
use ephemeral_sandbox.Merge.Lines.{Line, eligible, split_lines}
use ephemeral_sandbox.Merge.Diff.{diff}
use ephemeral_sandbox.Merge.Regions.{Region, regions}
use ephemeral_sandbox.Merge.Loop.{
  Side, Progress, LoopResult, MergeOutcome, absorb, gather, next_start, skip_to, settle, turn,
  merge_loop, merge_regions, outcome, finish, overlap, ineligible, start_progress, three_way_merge,
  fresh_side,
}
use ephemeral_sandbox.Merge.Loop.Fuel.{absorb-le, absorb-grown, turn-lt}

-- The inner loop: it goes on while a side has grown.
pub data Gathers (a c : List Line) (bi : ℕ) : ℕ → Side → Side → Side × Side × ℕ → Type 0 where
  still :
      {cb1 cb2 cb3 : ℕ} {sa sc sa' sc' : Side}
      → absorb a bi cb1 sa sa.rest ≡ (sa', cb2, false)
      → absorb c bi cb2 sc sc.rest ≡ (sc', cb3, false)
      → Gathers a c bi cb1 sa sc (sa', sc', cb3)
  grown :
      {cb1 cb2 cb3 : ℕ} {sa sc sa' sc' : Side} {grew_a grew_c : Bool} {r : Side × Side × ℕ}
      → absorb a bi cb1 sa sa.rest ≡ (sa', cb2, grew_a)
      → absorb c bi cb2 sc sc.rest ≡ (sc', cb3, grew_c)
      → grew_a || grew_c ≡ true
      → Gathers a c bi cb3 sa' sc' r
      → Gathers a c bi cb1 sa sc r

-- The outer loop: it ends where no region is left, or in a conflict.
pub data Runs (b a c : List Line) : List Region → List Region → Progress → LoopResult → Type 0 where
  finished :
      {ra rc : List Region} {p : Progress}
      → next_start ra rc ≡ none
      → Runs b a c ra rc p (finish b p)
  conflicts :
      {ra rc : List Region} {p : Progress} {start cb1 : ℕ} {sa sc : Side}
      → next_start ra rc ≡ some start
      → Gathers a c
          (skip_to b start p).bi
          (skip_to b start p).bi
          (fresh_side ra)
          (fresh_side rc)
          (sa, sc, cb1)
      → settle b (skip_to b start p) sa sc cb1 ≡ none
      → Runs b a c ra rc p overlap
  turns :
      {ra rc : List Region} {p p' : Progress} {start cb1 : ℕ} {sa sc : Side} {result : LoopResult}
      → next_start ra rc ≡ some start
      → Gathers a c
          (skip_to b start p).bi
          (skip_to b start p).bi
          (fresh_side ra)
          (fresh_side rc)
          (sa, sc, cb1)
      → settle b (skip_to b start p) sa sc cb1 ≡ some p'
      → Runs b a c sa.rest sc.rest p' result
      → Runs b a c ra rc p result

absorb-empty :
    (src : List Line) (bi cb1 : ℕ) (s : Side) (rs : List Region)
    → length rs ≤ 0
    → absorb src bi cb1 s rs ≡ (s, cb1, false)
unfolding absorb
absorb-empty src bi cb1 s [] h = refl
absorb-empty src bi cb1 s (r ∷ rs) h = absurd (omega arith)

-- One turn, from what the two sides have absorbed.
turn-Gathers :
    {a c : List Line} {bi cb1 cb2 cb3 : ℕ} {sa sc sa' sc' : Side} (again : Side × Side × ℕ)
    (ga gc : Bool)
    → absorb a bi cb1 sa sa.rest ≡ (sa', cb2, ga)
    → absorb c bi cb2 sc sc.rest ≡ (sc', cb3, gc)
    → ((ga || gc ≡ true) → Gathers a c bi cb3 sa' sc' again)
    → Gathers a c bi cb1 sa sc (if ga || gc then again else (sa', sc', cb3))
turn-Gathers again true gc e f go = grown e f refl (go refl)
turn-Gathers again false true e f go = grown e f refl (go refl)
turn-Gathers again false false e f go = still e f

-- Fuel for each region is enough for the inner loop.
gather-Gathers :
    (fuel : ℕ) (a c : List Line) (bi cb1 : ℕ) (sa sc : Side)
    → length sa.rest + length sc.rest ≤ fuel
    → Gathers a c bi cb1 sa sc (gather fuel a c bi cb1 sa sc)
unfolding gather
gather-Gathers zero a c bi cb1 sa sc h =
    still (absorb-empty a bi cb1 sa sa.rest (omega arith))
      (absorb-empty c bi cb1 sc sc.rest (omega arith))
gather-Gathers (suc fuel) a c bi cb1 sa sc h =
    let (sa', cb2, ga) = absorb a bi cb1 sa sa.rest in
    let (sc', cb3, gc) = absorb c bi cb2 sc sc.rest in
    turn-Gathers (gather fuel a c bi cb3 sa' sc') ga gc refl refl (λ e.
      gather-Gathers fuel a c bi cb3 sa' sc' (
        ground (
          arith,
          absorb-le a bi cb1 sa sa.rest,
          absorb-le c bi cb2 sc sc.rest,
          absorb-grown a bi cb1 sa sa.rest refl,
          absorb-grown c bi cb2 sc sc.rest refl,
        )))

merge_loop-Runs :
    (fuel : ℕ) (b a c : List Line) (ra rc : List Region) (p : Progress)
    → length ra + length rc < fuel
    → (result : LoopResult) × (merge_loop fuel b a c ra rc p ≡ some result)
      × Runs b a c ra rc p result
unfolding merge_loop turn
merge_loop-Runs zero b a c ra rc p h = absurd (omega arith)
merge_loop-Runs (suc fuel) b a c ra rc p h = elim (Option-cases (next_start ra rc)) [
  | inl e ↦ (finish b p, rw (e, merge_loop) refl, finished e)
  | inr (start, e) ↦
      let bi = (skip_to b start p).bi in
      let (sa, sc, cb1) =
        gather (length ra + length rc) a c bi bi (fresh_side ra) (fresh_side rc) in
      let g =
        gather-Gathers (length ra + length rc) a c bi bi (fresh_side ra) (fresh_side rc)
          (omega arith) in
      elim (Option-cases (settle b (skip_to b start p) sa sc cb1)) [
        | inl e' ↦ (overlap, rw (e, merge_loop) (rw e'), conflicts e g e')
        | inr (p', e') ↦
            let ih =
              merge_loop-Runs fuel b a c sa.rest sc.rest p'
                (omega (arith, turn-lt b a c start ra rc p e)) in
            (ih.0, rw (e, merge_loop) (rw e' ih.1), turns e g e' ih.2)
      ]
]

-- What `three_way_merge` makes of three contents: nothing where one of them is not eligible, and else
-- what its loops leave on the changed regions.
pub data MergesTo (base active' command' : List ℕ) : MergeOutcome → Type 0 where
  passed_over :
      not (eligible base) || not (eligible active') || not (eligible command') ≡ true
      → MergesTo base active' command' ineligible
  looped :
      {result : LoopResult}
      → not (eligible base) || not (eligible active') || not (eligible command') ≡ false
      → Runs
          (split_lines base)
          (split_lines active')
          (split_lines command')
          (regions (diff (split_lines base) (split_lines active')))
          (regions (diff (split_lines base) (split_lines command')))
          start_progress
          result
      → MergesTo base active' command' (outcome result)

-- The three-way merge returns an outcome for any three contents, and it is the one that its loops as
-- they are written, with no fuel, come to: each turn of either loop but its last uses up a region.
pub three_way_merge-total :
    (base active' command' : List ℕ)
    → (result : MergeOutcome) × (three_way_merge base active' command' ≡ some result)
      × MergesTo base active' command' result
unfolding three_way_merge merge_regions
three_way_merge-total base active' command' =
    elim (Bool-cases (not (eligible base) || not (eligible active') || not (eligible command'))) [
      | inl e ↦ (ineligible, rw e refl, passed_over e)
      | inr e ↦
          let b = split_lines base in
          let a = split_lines active' in
          let c = split_lines command' in
          let ra = regions (diff b a) in
          let rc = regions (diff b c) in
          let (result, m, runs) =
            merge_loop-Runs (suc (length ra + length rc)) b a c ra rc start_progress
              (omega arith) in
          (outcome result, rw e (rw m), looped e runs)
    ]
