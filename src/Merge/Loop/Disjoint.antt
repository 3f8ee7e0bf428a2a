-- ===== src/Merge/Loop/Disjoint.antt =====
-- The merge of edits of different base lines: each turn takes one region, and both edits are made.
use ephemeral_sandbox.Prelude.{
  ℕ, ◌+◌, ◌-◌, ◌≤◌, ◌≡◌, ◌≢◌, refl, ap, ◌⊎◌, true, false, Option, some, List, [], ◌∷◌, ◌++◌, map,
  arith, length, take, drop, get_or, All, ltb, length-append, length-slice, length-map, take-all,
  replicate, subst, length-drop,
}
use mathlib.Core.List.{append_assoc}
use ephemeral_sandbox.Merge.Lines.{Line}
use ephemeral_sandbox.Merge.Regions.{Region}
use ephemeral_sandbox.Merge.Regions.Follows.{Follows, Hunk, Hunk-lines, patch}
use ephemeral_sandbox.Merge.Regions.Skip.{Behind, Follows-agree}
use ephemeral_sandbox.Merge.Origins.{OriginBuilder, push_active, command}
use ephemeral_sandbox.Merge.Origins.Expand.{
  expand, actives, Sourced, Sourced-append, Sourced-actives, Sourced-commands, IsTiled,
  push_active-IsTiled, push_command-IsTiled, expand-push_active, expand-push_command,
}
use ephemeral_sandbox.Merge.Loop.{Progress, LoopResult, done, finish}
use ephemeral_sandbox.Merge.Loop.Turns.{after_active, after_command}

-- Two regions that share no base line and do not start at the same one.
abbrev pub Clear : Region → Region → Type 0
Clear r s = ((r.b1 ≤ s.b0) ⊎ (s.b1 ≤ r.b0)) × (r.b0 ≢ s.b0)

abbrev pub Disjoint : List Region → List Region → Type 0
Disjoint ra rc = All (λ r. All (λ s. Clear r s) rc) ra

-- Both edits made to the base from line `p`, the one that comes first first.
unfoldable pub patch_both :
    List Line → List Line → List Line → ℕ → List Region → List Region → List Line
patch_both b a c p [] rc = patch b c p rc
patch_both b a c p (r ∷ ra) [] = patch b a p (r ∷ ra)
patch_both b a c p (r ∷ ra) (s ∷ rc) = elim (ltb r.b0 s.b0) [
  | true ↦
      take (r.b0 - p) (drop p b)
      ++ (map (λ i. get_or a i []) r.repl ++ patch_both b a c r.b1 ra (s ∷ rc))
  | false ↦
      take (s.b0 - p) (drop p b)
      ++ (map (λ i. get_or c i []) s.repl ++ patch_both b a c s.b1 (r ∷ ra) rc)
]

-- The lines gathered so far have their origins, and the ranges tile them.
pub record IsGood (a c : List Line) (p : Progress) : Type 0 where
  pub sourced : Sourced a c p.out (expand p.builder.ranges)
  pub tiled : IsTiled (length p.out) p.builder

pub after_active-IsGood :
    (b a c : List Line) (r : Region) (p : Progress)
    → Hunk b a p.bi p.a_cursor r
    → IsGood a c p
    → IsGood a c (after_active b a r p)
after_active-IsGood b a c r p h g = record {
  sourced =
      rw
        (
          expand-push_active q1 n (push_active q gap p.builder),
          expand-push_active q gap p.builder,
          append_assoc (expand p.builder.ranges) (actives q gap) (actives q1 n),
          h.agree,
          Hunk-lines b a p.bi q r h,
        )
        (Sourced-append a c p.out _ (expand p.builder.ranges) _ g.sourced (
          Sourced-append a c _ _ (actives q gap) (actives q1 n)
            (Sourced-actives a c q gap (omega (arith, h.target_within)))
            (Sourced-actives a c q1 n h.target_within)));
  tiled =
      push_active-IsTiled q1 n (length p.out + gap) (length (after_active b a r p).out)
        (push_active q gap p.builder) lengths
        (push_active-IsTiled q gap (length p.out) (length p.out + gap) p.builder refl g.tiled);
}
  where
    q : ℕ
    q = p.a_cursor

    gap : ℕ
    gap = r.b0 - p.bi

    q1 : ℕ
    q1 = q + gap

    n : ℕ
    n = length r.repl

    lengths : length p.out + gap + n ≡ length (after_active b a r p).out
    lengths = omega (
      arith,
      length-append p.out (take gap (drop p.bi b) ++ map (λ i. get_or a i []) r.repl),
      length-append (take gap (drop p.bi b)) (map (λ i. get_or a i []) r.repl),
      length-map (λ i. get_or a i []) r.repl,
      length-slice gap p.bi b,
      h.after,
      h.ordered,
      h.within,
    )

pub after_command-IsGood :
    (b a c : List Line) (qc : ℕ) (s : Region) (ra : List Region) (p : Progress)
    → Hunk b c p.bi qc s
    → Follows b a p.bi p.a_cursor ra
    → Behind s.b0 ra
    → p.a_cursor ≤ length a
    → IsGood a c p
    → IsGood a c (after_command b c s p)
after_command-IsGood b a c qc s ra p h f behind inside g = record {
  sourced =
      rw
        (
          expand-push_command n (push_active q gap p.builder),
          expand-push_active q gap p.builder,
          append_assoc (expand p.builder.ranges) (actives q gap) (replicate n command),
          same.0,
          Hunk-lines b c p.bi qc s h,
        )
        (Sourced-append a c p.out _ (expand p.builder.ranges) _ g.sourced (
          Sourced-append a c _ _ (actives q gap) (replicate n command)
            (Sourced-actives a c q gap same.1)
            (Sourced-commands a c (qc + gap) n h.target_within)));
  tiled =
      push_command-IsTiled n (length p.out + gap) (length (after_command b c s p).out)
        (push_active q gap p.builder) lengths
        (push_active-IsTiled q gap (length p.out) (length p.out + gap) p.builder refl g.tiled);
}
  where
    q : ℕ
    q = p.a_cursor

    gap : ℕ
    gap = s.b0 - p.bi

    n : ℕ
    n = length s.repl

    reach : p.bi + gap ≡ s.b0
    reach = omega (arith, h.after)

    same : (take gap (drop p.bi b) ≡ take gap (drop q a)) × (q + gap ≤ length a)
    same =
        Follows-agree b a p.bi q gap ra f (rw reach behind) (omega (arith, h.ordered, h.within))
          inside

    lengths : length p.out + gap + n ≡ length (after_command b c s p).out
    lengths = omega (
      arith,
      length-append p.out (take gap (drop p.bi b) ++ map (λ i. get_or c i []) s.repl),
      length-append (take gap (drop p.bi b)) (map (λ i. get_or c i []) s.repl),
      length-map (λ i. get_or c i []) s.repl,
      length-slice gap p.bi b,
      h.after,
      h.ordered,
      h.within,
    )

-- What the loop returns when nothing is in its way: `lines` and good origins.
abbrev pub Returns : List Line → List Line → List Line → Option LoopResult → Type 0
Returns a c lines result =
    (builder : OriginBuilder) × (result ≡ some (done lines builder))
    × Sourced a c lines (expand builder.ranges)
    × IsTiled (length lines) builder

pub finish-Returns :
    (b a c : List Line) (p : Progress)
    → drop p.bi b ≡ drop p.a_cursor a
    → p.a_cursor ≤ length a
    → IsGood a c p
    → Returns a c (p.out ++ drop p.bi b) (some (finish b p))
unfolding finish
finish-Returns b a c p e inside g = (
  push_active q n p.builder,
  refl,
  rw (expand-push_active q n p.builder, e)
      (Sourced-append a c p.out (drop q a) (expand p.builder.ranges) (actives q n) g.sourced (
        subst (λ ls. Sourced a c ls (actives q n))
          (take-all n (drop q a) (omega (arith, length-drop q a, left)))
          (Sourced-actives a c q n (omega (arith, left))))),
  push_active-IsTiled q n (length p.out) (length (p.out ++ drop p.bi b)) p.builder
      (omega (arith, length-append p.out (drop p.bi b), length-drop p.bi b)) g.tiled,
)
  where
    q : ℕ
    q = p.a_cursor

    n : ℕ
    n = length b - p.bi

    left : n ≡ length a - q
    left = omega (arith, ap length e, length-drop p.bi b, length-drop q a)
