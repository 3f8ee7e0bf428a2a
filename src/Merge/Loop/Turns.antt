-- ===== src/Merge/Loop/Turns.antt =====
-- One turn of the merge loop on a region that no region of the other side touches.
use ephemeral_sandbox.Prelude.{
  ℕ, zero, suc, ◌+◌, ◌-◌, ◌≤◌, min, ◌≡◌, refl, sym, ◌∙◌, Bool, true, false, Option, some, List, [],
  ◌∷◌, ◌++◌, map, arith, length, take, drop, Bool-cases, inl, inr, ltb, subst, get_or, ◌||◌,
  if◌then◌else◌, length-map,
}
use mathlib.Core.List.{append-nil, append_assoc}
use ephemeral_sandbox.Merge.Lines.{Line}
use ephemeral_sandbox.Merge.Regions.{Region}
use ephemeral_sandbox.Merge.Origins.{push_active, push_command}
use ephemeral_sandbox.Merge.Loop.{
  Side, Progress, absorb, gather, touches, picked, skip_to, settle, turn, fresh_side,
}

abbrev pub Untouched : ℕ → ℕ → List Region → Type 0
Untouched bi cb1 [] = Unit
Untouched bi cb1 (r ∷ rs) = touches bi cb1 r ≡ false

absorb-Untouched :
    (src : List Line) (bi cb1 : ℕ) (s : Side) (rs : List Region)
    → Untouched bi cb1 rs
    → absorb src bi cb1 s rs ≡ (s, cb1, false)
unfolding absorb
absorb-Untouched src bi cb1 s [] h = refl
absorb-Untouched src bi cb1 s (r ∷ rs) h = rw h

gather_still :
    (fuel : ℕ) (a c : List Line) (bi cb1 : ℕ) (sa sc : Side)
    → Untouched bi cb1 sa.rest
    → Untouched bi cb1 sc.rest
    → gather fuel a c bi cb1 sa sc ≡ (sa, sc, cb1)
unfolding gather
gather_still zero a c bi cb1 sa sc h k = refl
gather_still (suc fuel) a c bi cb1 sa sc h k =
    ground (arith, absorb-Untouched a bi cb1 sa sa.rest h, absorb-Untouched c bi cb1 sc sc.rest k)

-- The side of one region.
abbrev pub one : List Line → Region → List Region → Side
one src r rest = record { lines = picked src r; saw = true; rest = rest }

absorb-one :
    (src : List Line) (bi : ℕ) (r : Region) (rest : List Region)
    → r.b0 ≡ bi
    → r.b0 ≤ r.b1
    → absorb src bi bi (fresh_side (r ∷ rest)) (r ∷ rest) ≡ (one src r rest, r.b1, true)
unfolding absorb touches
absorb-one src bi r rest e h = ground arith

pub gather_step :
    (fuel : ℕ) (a c : List Line) (bi cb1 cb2 cb3 : ℕ) (sa sc sa' sc' : Side) (ga gc : Bool)
    → absorb a bi cb1 sa sa.rest ≡ (sa', cb2, ga)
    → absorb c bi cb2 sc sc.rest ≡ (sc', cb3, gc)
    → gather (suc fuel) a c bi cb1 sa sc
      ≡ (if ga || gc then gather fuel a c bi cb3 sa' sc' else (sa', sc', cb3))
unfolding gather
gather_step fuel a c bi cb1 cb2 cb3 sa sc sa' sc' ga gc e1 e2 = ground arith

gather_active :
    (fuel : ℕ) (a c : List Line) (bi : ℕ) (r : Region) (ra rc : List Region)
    → r.b0 ≡ bi
    → r.b0 ≤ r.b1
    → Untouched bi r.b1 ra
    → Untouched bi r.b1 rc
    → gather (suc fuel) a c bi bi (fresh_side (r ∷ ra)) (fresh_side rc)
      ≡ (one a r ra, fresh_side rc, r.b1)
gather_active fuel a c bi r ra rc e h ua uc =
    gather_step fuel a c bi bi r.b1 r.b1 (fresh_side (r ∷ ra)) (fresh_side rc) (one a r ra)
      (fresh_side rc) true false (absorb-one a bi r ra e h)
      (absorb-Untouched c bi r.b1 (fresh_side rc) rc uc)
    ∙ gather_still fuel a c bi r.b1 (one a r ra) (fresh_side rc) ua uc

gather_command :
    (fuel : ℕ) (a c : List Line) (bi : ℕ) (s : Region) (ra rc : List Region)
    → s.b0 ≡ bi
    → s.b0 ≤ s.b1
    → Untouched bi bi ra
    → Untouched bi s.b1 ra
    → Untouched bi s.b1 rc
    → gather (suc fuel) a c bi bi (fresh_side ra) (fresh_side (s ∷ rc))
      ≡ (fresh_side ra, one c s rc, s.b1)
gather_command fuel a c bi s ra rc e h u0 ua uc =
    gather_step fuel a c bi bi bi s.b1 (fresh_side ra) (fresh_side (s ∷ rc)) (fresh_side ra)
      (one c s rc) false true (absorb-Untouched a bi bi (fresh_side ra) ra u0)
      (absorb-one c bi s rc e h)
    ∙ gather_still fuel a c bi s.b1 (fresh_side ra) (one c s rc) ua uc

-- The unchanged lines up to `start`, none if it is the position already.
abbrev pub skipped : List Line → ℕ → Progress → Progress
skipped b start p = record {
  bi = start;
  a_cursor = p.a_cursor + (start - p.bi);
  out = p.out ++ take (start - p.bi) (drop p.bi b);
  builder = push_active p.a_cursor (start - p.bi) p.builder;
}

-- Skipping no line changes nothing.
skip_none :
    (b : List Line) (p : Progress) (n : ℕ)
    → n ≡ 0
    → record {
      bi = p.bi;
      a_cursor = p.a_cursor + n;
      out = p.out ++ take n (drop p.bi b);
      builder = push_active p.a_cursor n p.builder;
    }
      ≡ p
unfolding push_active
skip_none b p zero z =
    let same : p.a_cursor + 0 ≡ p.a_cursor = omega arith in
    λ i. record { bi = p.bi; a_cursor = same i; out = append-nil p.out i; builder = p.builder }
skip_none b p (suc n) z = absurd (omega arith)

skip_to_here : (b : List Line) (p : Progress) → skip_to b p.bi p ≡ skipped b p.bi p
unfolding skip_to
skip_to_here b p =
    let off : ltb p.bi p.bi ≡ false = ground arith in
    rw (off, skip_to) (sym (skip_none b p (p.bi - p.bi) (omega arith)))

pub skip_to_lem :
    (b : List Line) (start : ℕ) (p : Progress)
    → p.bi ≤ start
    → skip_to b start p ≡ skipped b start p
unfolding skip_to
skip_to_lem b start p h = elim (Bool-cases (ltb p.bi start)) [
  | inl e ↦ rw (e, skip_to)
  | inr e ↦ subst (λ k. skip_to b k p ≡ skipped b k p) (ground arith) (skip_to_here b p)
]

-- The progress after a region of the active side, and after one of the command's.
abbrev pub after_active : List Line → List Line → Region → Progress → Progress
after_active b a r p = record {
  bi = r.b1;
  a_cursor = p.a_cursor + (r.b0 - p.bi) + length r.repl;
  out = p.out ++ (take (r.b0 - p.bi) (drop p.bi b) ++ map (λ i. get_or a i []) r.repl);
  builder =
      push_active (p.a_cursor + (r.b0 - p.bi)) (length r.repl)
        (push_active p.a_cursor (r.b0 - p.bi) p.builder);
}

abbrev pub after_command : List Line → List Line → Region → Progress → Progress
after_command b c s p = record {
  bi = s.b1;
  a_cursor = p.a_cursor + (s.b0 - p.bi) + (s.b1 - s.b0);
  out = p.out ++ (take (s.b0 - p.bi) (drop p.bi b) ++ map (λ i. get_or c i []) s.repl);
  builder = push_command (length s.repl) (push_active p.a_cursor (s.b0 - p.bi) p.builder);
}

settle_active :
    (b a : List Line) (r : Region) (ra rc : List Region) (p : Progress)
    → r.b1 ≤ length b
    → settle b (skipped b r.b0 p) (one a r ra) (fresh_side rc) r.b1 ≡ some (after_active b a r p)
unfolding settle picked
settle_active b a r ra rc p h =
    let inside : min r.b1 (length b) ≡ r.b1 = omega arith in
    rw (inside, length-map (λ i. get_or a i []) r.repl)
      (rw (append_assoc p.out (take (r.b0 - p.bi) (drop p.bi b)) (map (λ i. get_or a i []) r.repl)))

settle_command :
    (b c : List Line) (s : Region) (ra rc : List Region) (p : Progress)
    → s.b1 ≤ length b
    → settle b (skipped b s.b0 p) (fresh_side ra) (one c s rc) s.b1 ≡ some (after_command b c s p)
unfolding settle picked
settle_command b c s ra rc p h =
    let inside : min s.b1 (length b) ≡ s.b1 = omega arith in
    rw (inside, length-map (λ i. get_or c i []) s.repl)
      (rw (append_assoc p.out (take (s.b0 - p.bi) (drop p.bi b)) (map (λ i. get_or c i []) s.repl)))

-- A turn from what its three parts give.
pub turn_step :
    (b a c : List Line) (start cb1 fuel : ℕ) (ra rc : List Region) (p p' : Progress) (sa sc : Side)
    (settled : Option Progress)
    → length ra + length rc ≡ fuel
    → skip_to b start p ≡ p'
    → gather fuel a c p'.bi p'.bi (fresh_side ra) (fresh_side rc) ≡ (sa, sc, cb1)
    → settle b p' sa sc cb1 ≡ settled
    → turn b a c start ra rc p ≡ (sa, sc, settled)
unfolding turn
turn_step b a c start cb1 fuel ra rc p p' sa sc settled e0 e1 e2 e3 = rw (e0, e1) (rw e2 (rw e3))

pub turn_active :
    (b a c : List Line) (r : Region) (ra rc : List Region) (p : Progress)
    → p.bi ≤ r.b0
    → r.b0 ≤ r.b1
    → r.b1 ≤ length b
    → Untouched r.b0 r.b1 ra
    → Untouched r.b0 r.b1 rc
    → turn b a c r.b0 (r ∷ ra) rc p ≡ (one a r ra, fresh_side rc, some (after_active b a r p))
turn_active b a c r ra rc p h0 h1 h2 ua uc =
    turn_step b a c r.b0 r.b1 (suc (length ra + length rc)) (r ∷ ra) rc p (skipped b r.b0 p)
      (one a r ra) (fresh_side rc) (some (after_active b a r p)) (omega arith)
      (skip_to_lem b r.b0 p h0)
      (gather_active (length ra + length rc) a c r.b0 r ra rc refl h1 ua uc)
      (settle_active b a r ra rc p h2)

pub turn_command :
    (b a c : List Line) (s : Region) (ra rc : List Region) (p : Progress)
    → p.bi ≤ s.b0
    → s.b0 ≤ s.b1
    → s.b1 ≤ length b
    → Untouched s.b0 s.b0 ra
    → Untouched s.b0 s.b1 ra
    → Untouched s.b0 s.b1 rc
    → turn b a c s.b0 ra (s ∷ rc) p ≡ (fresh_side ra, one c s rc, some (after_command b c s p))
turn_command b a c s ra rc p h0 h1 h2 u0 ua uc =
    turn_step b a c s.b0 s.b1 (suc (length ra + length rc)) ra (s ∷ rc) p (skipped b s.b0 p)
      (fresh_side ra) (one c s rc) (some (after_command b c s p)) (omega arith)
      (skip_to_lem b s.b0 p h0)
      (gather_command (length ra + length rc) a c s.b0 s ra rc refl h1 u0 ua uc)
      (settle_command b c s ra rc p h2)
