-- ===== src/Merge/Loop/Fuel.antt =====
-- The loops of `three_way_merge` end: each turn of the outer loop uses up a region.
use ephemeral_sandbox.Prelude.{
  ℕ, zero, suc, ◌+◌, ◌≤◌, ◌<◌, ◌≡◌, refl, ◌⊎◌, inl, inr, true, false, some, List, [], ◌∷◌, arith,
  length, Bool-cases, Option-cases, leb, subst, sym,
}
use ephemeral_sandbox.Merge.Lines.{Line}
use ephemeral_sandbox.Merge.Regions.{Region}
use ephemeral_sandbox.Merge.Loop.{
  Side, Progress, LoopResult, absorb, gather, touches, next_start, skip_to, turn, merge_loop,
  merge_regions, finish, overlap, start_progress, fresh_side,
}

pub absorb-le :
    (src : List Line) (bi cb1 : ℕ) (s : Side) (rs : List Region)
    → length rs ≤ length s.rest
    → length (absorb src bi cb1 s rs).0.rest ≤ length s.rest
unfolding absorb
absorb-le src bi cb1 s [] h = omega arith
absorb-le src bi cb1 s (r ∷ rs) h = ground arith

gather-le :
    (fuel : ℕ) (a c : List Line) (bi cb1 : ℕ) (sa sc : Side)
    → (length (gather fuel a c bi cb1 sa sc).0.rest ≤ length sa.rest)
      × (length (gather fuel a c bi cb1 sa sc).1.rest ≤ length sc.rest)
unfolding gather
gather-le zero a c bi cb1 sa sc = (omega arith, omega arith)
gather-le (suc fuel) a c bi cb1 sa sc =
    let (sa', cb1', grew_a) = absorb a bi cb1 sa sa.rest in
    let (sc', cb1'', grew_c) = absorb c bi cb1' sc sc.rest in
    ground (
      arith,
      absorb-le a bi cb1 sa sa.rest,
      absorb-le c bi cb1' sc sc.rest,
      gather-le fuel a c bi cb1'' sa' sc',
    )

-- The region at the start of a chunk is absorbed, whichever side it is of.
absorb-lt :
    (src : List Line) (bi cb1 : ℕ) (s : Side) (r : Region) (rs : List Region)
    → touches bi cb1 r ≡ true
    → (absorb src bi cb1 s (r ∷ rs)).2 ≡ true
unfolding absorb
absorb-lt src bi cb1 s r rs h = ground arith

pub absorb-grown :
    (src : List Line) (bi cb1 : ℕ) (s : Side) (rs : List Region)
    → s.rest ≡ rs
    → (absorb src bi cb1 s rs).2 ≡ true
    → length (absorb src bi cb1 s rs).0.rest < length s.rest
unfolding absorb
absorb-grown src bi cb1 s [] e h = absurd (false-true h)
  where
    false-true : false ≡ true → ⊥
    false-true p = cc
absorb-grown src bi cb1 s (r ∷ rs) e h = ground arith

absorb_still :
    (src : List Line) (bi cb1 : ℕ) (s : Side) (rs : List Region)
    → (absorb src bi cb1 s rs).2 ≡ false
    → (absorb src bi cb1 s rs).0 ≡ s × ((absorb src bi cb1 s rs).1 ≡ cb1)
unfolding absorb
absorb_still src bi cb1 s [] h = (refl, refl)
absorb_still src bi cb1 s (r ∷ rs) h = ground arith

-- One side's first region touches the chunk.
abbrev pub Touched : ℕ → ℕ → List Region → Type 0
Touched bi cb1 [] = ⊥
Touched bi cb1 (r ∷ rs) = touches bi cb1 r ≡ true

absorb-Touched :
    (src : List Line) (bi cb1 : ℕ) (s : Side) (rs : List Region)
    → Touched bi cb1 rs
    → (absorb src bi cb1 s rs).2 ≡ true
absorb-Touched src bi cb1 s [] h = absurd h
absorb-Touched src bi cb1 s (r ∷ rs) h = absorb-lt src bi cb1 s r rs h

-- In the first turn of the inner loop one side grows.
first_grows :
    (a c : List Line) (bi cb1 : ℕ) (sa sc : Side)
    → Touched bi cb1 sa.rest ⊎ Touched bi cb1 sc.rest
    → ((absorb a bi cb1 sa sa.rest).2 ≡ true)
      ⊎ ((absorb c bi (absorb a bi cb1 sa sa.rest).1 sc sc.rest).2 ≡ true)
first_grows a c bi cb1 sa sc (inl t) = inl (absorb-Touched a bi cb1 sa sa.rest t)
first_grows a c bi cb1 sa sc (inr t) = elim (Bool-cases (absorb a bi cb1 sa sa.rest).2) [
  | inl e ↦ inl e
  | inr e ↦ inr (
      absorb-Touched c bi _ sc sc.rest
        (subst (λ k. Touched bi k sc.rest) (sym (absorb_still a bi cb1 sa sa.rest e).1) t))
]

pub gather-lt :
    (fuel : ℕ) (a c : List Line) (bi cb1 : ℕ) (sa sc : Side)
    → 0 < fuel
    → Touched bi cb1 sa.rest ⊎ Touched bi cb1 sc.rest
    → length (gather fuel a c bi cb1 sa sc).0.rest + length (gather fuel a c bi cb1 sa sc).1.rest
      < length sa.rest + length sc.rest
unfolding gather
gather-lt zero a c bi cb1 sa sc h t = absurd (omega arith)
gather-lt (suc fuel) a c bi cb1 sa sc h t =
    let (sa', cb1', grew_a) = absorb a bi cb1 sa sa.rest in
    let (sc', cb1'', grew_c) = absorb c bi cb1' sc sc.rest in
    ground (
      arith,
      first_grows a c bi cb1 sa sc t,
      absorb-le a bi cb1 sa sa.rest,
      absorb-le c bi cb1' sc sc.rest,
      absorb-grown a bi cb1 sa sa.rest refl,
      absorb-grown c bi cb1' sc sc.rest refl,
      gather-le fuel a c bi cb1'' sa' sc',
    )

pub next_start-Touched :
    (ra rc : List Region) (start : ℕ) (b : List Line) (p : Progress)
    → next_start ra rc ≡ some start
    → let bi = (skip_to b start p).bi in Touched bi bi ra ⊎ Touched bi bi rc
unfolding next_start skip_to touches
next_start-Touched [] [] start b p e = cc
next_start-Touched (r ∷ ra) [] start b p e = inl (ground arith)
next_start-Touched [] (s ∷ rc) start b p e = inr (ground arith)
next_start-Touched (r ∷ ra) (s ∷ rc) start b p e = elim (Bool-cases (leb r.b0 s.b0)) [
  | inl h ↦ inl (ground arith)
  | inr h ↦ inr (ground arith)
]

pub turn-lt :
    (b a c : List Line) (start : ℕ) (ra rc : List Region) (p : Progress)
    → next_start ra rc ≡ some start
    → length (turn b a c start ra rc p).0.rest + length (turn b a c start ra rc p).1.rest
      < length ra + length rc
unfolding turn next_start
turn-lt b a c start [] [] p e = cc
turn-lt b a c start (r ∷ ra) rc p e =
    let bi = (skip_to b start p).bi in
    gather-lt (length (r ∷ ra) + length rc) a c bi bi (fresh_side (r ∷ ra)) (fresh_side rc)
      (omega arith) (next_start-Touched (r ∷ ra) rc start b p e)
turn-lt b a c start [] (s ∷ rc) p e =
    let bi = (skip_to b start p).bi in
    gather-lt (0 + length (s ∷ rc)) a c bi bi (fresh_side []) (fresh_side (s ∷ rc)) (omega arith)
      (next_start-Touched [] (s ∷ rc) start b p e)

merge_loop-enough :
    (fuel : ℕ) (b a c : List Line) (ra rc : List Region) (p : Progress)
    → length ra + length rc < fuel
    → (result : LoopResult) × (merge_loop fuel b a c ra rc p ≡ some result)
unfolding merge_loop
merge_loop-enough zero b a c ra rc p h = absurd (omega arith)
merge_loop-enough (suc fuel) b a c ra rc p h = elim (Option-cases (next_start ra rc)) [
  | inl e ↦ (finish b p, rw (e, merge_loop))
  | inr (start, e) ↦
      let (sa, sc, settled) = turn b a c start ra rc p in
      elim (Option-cases settled) [
        | inl e' ↦ (overlap, rw (e, merge_loop) (rw e'))
        | inr (p', e') ↦
            let ih =
              merge_loop-enough fuel b a c sa.rest sc.rest p'
                (omega (arith, turn-lt b a c start ra rc p e)) in
            (ih.0, rw (e, merge_loop) (rw e' ih.1))
      ]
]

-- The merge of any two lists of regions ends with the fuel that it is given.
pub merge_regions-total :
    (b a c : List Line) (ra rc : List Region)
    → (result : LoopResult) × (merge_regions b a c ra rc ≡ some result)
unfolding merge_regions
merge_regions-total b a c ra rc =
    merge_loop-enough (suc (length ra + length rc)) b a c ra rc start_progress (omega arith)
