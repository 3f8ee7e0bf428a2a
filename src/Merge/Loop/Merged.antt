-- ===== src/Merge/Loop/Merged.antt =====
-- The result of the merge loop on edits of different base lines.
use ephemeral_sandbox.Prelude.{
  ℕ, zero, suc, ◌+◌, ◌-◌, ◌≤◌, ◌<◌, ◌≡◌, ◌≢◌, refl, sym, ap, inl, inr, true, false, Option, some,
  List, [], ◌∷◌, ◌++◌, arith, length, drop, Bool-cases, ltb, subst, ltb→lt,
}
use mathlib.Core.List.{append_assoc}
use ephemeral_sandbox.Merge.Lines.{Line}
use ephemeral_sandbox.Merge.Regions.{Region}
use ephemeral_sandbox.Merge.Regions.Follows.{Follows, Hunk, Apart, patch}
use ephemeral_sandbox.Merge.Regions.Skip.{Behind, Follows-agree, Follows-skip}
use ephemeral_sandbox.Merge.Origins.Expand.{Sourced, expand}
use ephemeral_sandbox.Merge.Loop.{
  Progress, LoopResult, Side, turn, fresh_side, merge_loop, merge_regions, next_start, touches,
  finish, start_progress,
}
use ephemeral_sandbox.Merge.Loop.Turns.{
  Untouched, one, after_active, after_command, turn_active, turn_command,
}
use ephemeral_sandbox.Merge.Loop.Disjoint.{
  Clear, Disjoint, patch_both, IsGood, Returns, after_active-IsGood, after_command-IsGood,
  finish-Returns,
}

-- The next region starts behind the chunk `bi … cb1 - 1`.
abbrev Beyond : ℕ → ℕ → List Region → Type 0
Beyond bi cb1 [] = Unit
Beyond bi cb1 (r ∷ rs) = (cb1 ≤ r.b0) × (r.b0 ≢ bi)

Untouched-of_Beyond : (bi cb1 : ℕ) (rs : List Region) → Beyond bi cb1 rs → Untouched bi cb1 rs
unfolding touches
Untouched-of_Beyond bi cb1 [] h = tt
Untouched-of_Beyond bi cb1 (r ∷ rs) h = ground arith

Behind-of_Beyond : (bi cb1 : ℕ) (rs : List Region) → Beyond bi cb1 rs → Behind cb1 rs
Behind-of_Beyond bi cb1 [] h = tt
Behind-of_Beyond bi cb1 (r ∷ rs) h = h.0

Beyond-of_Apart : (bi n : ℕ) (rs : List Region) → bi ≤ n → Apart n rs → Beyond bi n rs
Beyond-of_Apart bi n [] h k = tt
Beyond-of_Apart bi n (r ∷ rs) h k = (omega arith, omega arith)

loop_step :
    (fuel start : ℕ) (b a c : List Line) (ra rc : List Region) (p p' : Progress) (sa sc : Side)
    → next_start ra rc ≡ some start
    → turn b a c start ra rc p ≡ (sa, sc, some p')
    → merge_loop (suc fuel) b a c ra rc p ≡ merge_loop fuel b a c sa.rest sc.rest p'
unfolding merge_loop
loop_step fuel start b a c ra rc p p' sa sc e t = rw (e, merge_loop) (rw t (rw t))

loop_active :
    (fuel : ℕ) (b a c : List Line) (r : Region) (ra rc : List Region) (p : Progress)
    → next_start (r ∷ ra) rc ≡ some r.b0
    → Hunk b a p.bi p.a_cursor r
    → Apart r.b1 ra
    → Beyond r.b0 r.b1 rc
    → merge_loop (suc fuel) b a c (r ∷ ra) rc p ≡ merge_loop fuel b a c ra rc (after_active b a r p)
loop_active fuel b a c r ra rc p e h apart beyond =
    loop_step fuel r.b0 b a c (r ∷ ra) rc p (after_active b a r p) (one a r ra) (fresh_side rc) e (
      turn_active b a c r ra rc p h.after h.ordered h.within
        (Untouched-of_Beyond r.b0 r.b1 ra (Beyond-of_Apart r.b0 r.b1 ra h.ordered apart))
        (Untouched-of_Beyond r.b0 r.b1 rc beyond))

loop_command :
    (fuel : ℕ) (b a c : List Line) (qc : ℕ) (s : Region) (ra rc : List Region) (p : Progress)
    → next_start ra (s ∷ rc) ≡ some s.b0
    → Hunk b c p.bi qc s
    → Apart s.b1 rc
    → Beyond s.b0 s.b1 ra
    → merge_loop (suc fuel) b a c ra (s ∷ rc) p
      ≡ merge_loop fuel b a c ra rc (after_command b c s p)
loop_command fuel b a c qc s ra rc p e h apart beyond =
    loop_step fuel s.b0 b a c ra (s ∷ rc) p (after_command b c s p) (fresh_side ra) (one c s rc) e (
      turn_command b a c s ra rc p h.after h.ordered h.within
        (Untouched-of_Beyond s.b0 s.b0 ra (nearer ra beyond))
        (Untouched-of_Beyond s.b0 s.b1 ra beyond)
        (Untouched-of_Beyond s.b0 s.b1 rc (Beyond-of_Apart s.b0 s.b1 rc h.ordered apart)))
  where
    nearer : (rs : List Region) → Beyond s.b0 s.b1 rs → Beyond s.b0 s.b0 rs
    nearer [] k = tt
    nearer (r ∷ rs) k = let o = h.ordered in (omega arith, k.1)

-- A result carried back over a turn that gathered `lines` behind `out`.
Returns-turn :
    (a c out gap lines rest : List Line) (before later : Option LoopResult)
    → before ≡ later
    → Returns a c ((out ++ (gap ++ lines)) ++ rest) later
    → Returns a c (out ++ (gap ++ (lines ++ rest))) before
Returns-turn a c out gap lines rest before later e h =
    rw (e, ← append_assoc gap lines rest, ← append_assoc out (gap ++ lines) rest) h

Disjoint-tail : (s : Region) (ra rc : List Region) → Disjoint ra (s ∷ rc) → Disjoint ra rc
Disjoint-tail s [] rc d = tt
Disjoint-tail s (r ∷ ra) rc d = (d.0.1, Disjoint-tail s ra rc d.1)

pub patch_both-nil :
    (b a c : List Line) (p : ℕ) (ra : List Region) → patch_both b a c p ra [] ≡ patch b a p ra
unfolding patch_both patch
patch_both-nil b a c p [] = refl
patch_both-nil b a c p (r ∷ ra) = refl

-- What the loop needs to go on from a progress: the regions of both sides follow.
record IsReady (b a c : List Line) (qc : ℕ) (ra rc : List Region) (p : Progress) : Type 0 where
  active_side : Follows b a p.bi p.a_cursor ra
  command_side : Follows b c p.bi qc rc
  disjoint : Disjoint ra rc
  inside : p.a_cursor ≤ length a
  good : IsGood a c p

IsReady-active :
    (b a c : List Line) (qc : ℕ) (r : Region) (ra rc : List Region) (p : Progress)
    → Beyond r.b0 r.b1 rc
    → IsReady b a c qc (r ∷ ra) rc p
    → IsReady b a c (qc + (r.b1 - p.bi)) ra rc (after_active b a r p)
IsReady-active b a c qc r ra rc p beyond g =
    let h = g.active_side.0 in
    record {
      active_side = g.active_side.2;
      command_side =
          Follows-skip b c p.bi qc (r.b1 - p.bi) r.b1 (qc + (r.b1 - p.bi)) rc
            (omega (arith, h.after, h.ordered)) refl (Behind-of_Beyond r.b0 r.b1 rc beyond)
            g.command_side;
      disjoint = g.disjoint.1;
      inside = h.target_within;
      good = after_active-IsGood b a c r p h g.good;
    }

IsReady-command :
    (b a c : List Line) (qc : ℕ) (s : Region) (ra rc : List Region) (p : Progress)
    → Beyond s.b0 s.b1 ra
    → IsReady b a c qc ra (s ∷ rc) p
    → IsReady b a c (qc + (s.b0 - p.bi) + length s.repl) ra rc (after_command b c s p)
IsReady-command b a c qc s ra rc p beyond g =
    let h = g.command_side.0 in
    let behind = Behind-of_Beyond s.b0 s.b1 ra beyond in
    let reach : p.bi + (s.b1 - p.bi) ≡ s.b1 = omega (arith, h.after, h.ordered) in
    let place : p.a_cursor + (s.b1 - p.bi) ≡ p.a_cursor + (s.b0 - p.bi) + (s.b1 - s.b0) =
      omega (arith, h.after, h.ordered) in
    record {
      active_side =
          Follows-skip b a p.bi p.a_cursor (s.b1 - p.bi) s.b1
            (p.a_cursor + (s.b0 - p.bi) + (s.b1 - s.b0)) ra reach place behind g.active_side;
      command_side = g.command_side.2;
      disjoint = Disjoint-tail s ra rc g.disjoint;
      inside =
          rw (← place)
            (Follows-agree b a p.bi p.a_cursor (s.b1 - p.bi) ra g.active_side (rw reach behind)
              (omega (arith, reach, h.within)) g.inside).1;
      good = after_command-IsGood b a c qc s ra p h g.active_side (lower ra behind) g.inside g.good;
    }
  where
    lower : (rs : List Region) → Behind s.b1 rs → Behind s.b0 rs
    lower [] k = tt
    lower (r ∷ rs) k = let o = g.command_side.0.ordered in omega arith

-- Two regions that are clear of one another: the first to start ends before the other.
Beyond-of_Clear :
    (r s : Region) (rs : List Region)
    → Clear r s
    → r.b0 < s.b0
    → s.b0 ≤ s.b1
    → Beyond r.b0 r.b1 (s ∷ rs)
Beyond-of_Clear r s rs (inl h, n) l o = (h, omega arith)
Beyond-of_Clear r s rs (inr h, n) l o = absurd (omega arith)

Beyond-of_Clear' :
    (r s : Region) (rs : List Region)
    → Clear r s
    → s.b0 < r.b0
    → r.b0 ≤ r.b1
    → Beyond s.b0 s.b1 (r ∷ rs)
Beyond-of_Clear' r s rs (inl h, n) l o = absurd (omega arith)
Beyond-of_Clear' r s rs (inr h, n) l o = (h, omega arith)

not_lt : (r s : Region) → ltb r.b0 s.b0 ≡ false → r.b0 ≢ s.b0 → s.b0 < r.b0
not_lt r s e n = ground arith

loop_done :
    (fuel : ℕ) (b a c : List Line) (p : Progress)
    → merge_loop (suc fuel) b a c [] [] p ≡ some (finish b p)
unfolding merge_loop next_start
loop_done fuel b a c p = refl

next_left : (r : Region) (ra : List Region) → next_start (r ∷ ra) [] ≡ some r.b0
unfolding next_start
next_left r ra = refl

next_right : (s : Region) (rc : List Region) → next_start [] (s ∷ rc) ≡ some s.b0
unfolding next_start
next_right s rc = refl

next_min_left :
    (r s : Region) (ra rc : List Region)
    → ltb r.b0 s.b0 ≡ true
    → next_start (r ∷ ra) (s ∷ rc) ≡ some r.b0
unfolding next_start
next_min_left r s ra rc e = ap some (omega (arith, ltb→lt r.b0 s.b0 e))

next_min_right :
    (r s : Region) (ra rc : List Region) → s.b0 < r.b0 → next_start (r ∷ ra) (s ∷ rc) ≡ some s.b0
unfolding next_start
next_min_right r s ra rc h = ap some (omega arith)

merge_loop-Returns :
    (fuel : ℕ) (b a c : List Line) (qc : ℕ) (ra rc : List Region) (p : Progress)
    → length ra + length rc < fuel
    → IsReady b a c qc ra rc p
    → Returns a c (p.out ++ patch_both b a c p.bi ra rc) (merge_loop fuel b a c ra rc p)
unfolding patch_both patch
merge_loop-Returns zero b a c qc ra rc p f g = absurd (omega arith)
merge_loop-Returns (suc fuel) b a c qc [] [] p f g =
    subst (Returns a c (p.out ++ drop p.bi b)) (sym (loop_done fuel b a c p))
      (finish-Returns b a c p g.active_side g.inside g.good)
merge_loop-Returns (suc fuel) b a c qc (r ∷ ra) [] p f g =
    Returns-turn a c p.out _ _ (patch b a r.b1 ra) _ _
      (loop_active fuel b a c r ra [] p (next_left r ra) g.active_side.0 g.active_side.1 tt)
      (rw (← patch_both-nil b a c r.b1 ra) (
        merge_loop-Returns fuel b a c _ ra [] (after_active b a r p) (omega arith)
          (IsReady-active b a c qc r ra [] p tt g)))
merge_loop-Returns (suc fuel) b a c qc [] (s ∷ rc) p f g =
    Returns-turn a c p.out _ _ (patch b c s.b1 rc) _ _
      (loop_command fuel b a c qc s [] rc p (next_right s rc) g.command_side.0 g.command_side.1 tt)
      (merge_loop-Returns fuel b a c _ [] rc (after_command b c s p) (omega arith)
        (IsReady-command b a c qc s [] rc p tt g))
merge_loop-Returns (suc fuel) b a c qc (r ∷ ra) (s ∷ rc) p f g = elim (Bool-cases (ltb r.b0 s.b0)) [
  | inl e ↦
      let beyond =
        Beyond-of_Clear r s rc g.disjoint.0.0 (ltb→lt r.b0 s.b0 e) g.command_side.0.ordered in
      rw (e, patch_both)
        (Returns-turn a c p.out _ _ (patch_both b a c r.b1 ra (s ∷ rc)) _ _
          (loop_active fuel b a c r ra (s ∷ rc) p (next_min_left r s ra rc e) g.active_side.0
            g.active_side.1 beyond)
          (merge_loop-Returns fuel b a c _ ra (s ∷ rc) (after_active b a r p) (omega arith)
            (IsReady-active b a c qc r ra (s ∷ rc) p beyond g)))
  | inr e ↦
      let later = not_lt r s e g.disjoint.0.0.1 in
      let beyond = Beyond-of_Clear' r s ra g.disjoint.0.0 later g.active_side.0.ordered in
      rw (e, patch_both)
        (Returns-turn a c p.out _ _ (patch_both b a c s.b1 (r ∷ ra) rc) _ _
          (loop_command fuel b a c qc s (r ∷ ra) rc p (next_min_right r s ra rc later)
            g.command_side.0 g.command_side.1 beyond)
          (merge_loop-Returns fuel b a c _ (r ∷ ra) rc (after_command b c s p) (omega arith)
            (IsReady-command b a c qc s (r ∷ ra) rc p beyond g)))
]

start-IsGood : (a c : List Line) → IsGood a c start_progress
unfolding Sourced expand
start-IsGood a c = record { sourced = tt; tiled = record { counted = refl; tiled = refl } }

-- Edits of different base lines merge: the result is the base with both edits made, and its origins
-- are right and tile the lines.
pub merge_regions-Disjoint :
    (b a c : List Line) (ra rc : List Region)
    → Follows b a 0 0 ra
    → Follows b c 0 0 rc
    → Disjoint ra rc
    → Returns a c (patch_both b a c 0 ra rc) (merge_regions b a c ra rc)
unfolding merge_regions
merge_regions-Disjoint b a c ra rc fa fc d =
    merge_loop-Returns (suc (length ra + length rc)) b a c 0 ra rc start_progress (omega arith)
      (record {
        active_side = fa;
        command_side = fc;
        disjoint = d;
        inside = omega arith;
        good = start-IsGood a c;
      })
