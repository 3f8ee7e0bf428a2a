-- ===== src/Merge/Loop/Overlap.antt =====
-- Edits of the same base lines: different replacements are a conflict, equal ones are taken once.
-- With several regions of the active side in one chunk the origins can be wrong.
use ephemeral_sandbox.Prelude.{
  ℕ, ◌+◌, ◌≤◌, ◌<◌, ◌≡◌, ◌≢◌, refl, sym, ap₂, ◌↔◌, ◌⊎◌, inl, inr, Bool, true, false, none, some,
  List, [], ◌∷◌, ◌++◌, arith, length, Bool-cases, get_elem?, max, min, if◌then◌else◌, ◌∙◌, subst,
}
use ephemeral_sandbox.Merge.Lines.{Line}
use ephemeral_sandbox.Merge.Diff.{bytes_eq}
use ephemeral_sandbox.Merge.Diff.Equal.{bytes_eq_refl, bytes_eq→eq}
use ephemeral_sandbox.Merge.Regions.{Region}
use ephemeral_sandbox.Merge.Origins.{active, push_active, OriginBuilder, builder_default}
use ephemeral_sandbox.Merge.Origins.Expand.{expand, run, actives}
use ephemeral_sandbox.Merge.Loop.Turns.{one, skipped, skip_to_lem, turn_step}
use ephemeral_sandbox.Merge.Loop.{
  done, overlap, lines_eq, picked, merge_regions, touches, gather, absorb, fresh_side, settle, turn,
  Progress, start_progress, merge_loop, next_start, finish,
}

lines_eq_refl : (xs : List Line) → lines_eq xs xs ≡ true
unfolding lines_eq
lines_eq_refl [] = refl
lines_eq_refl (x ∷ xs) = rw (bytes_eq_refl x, lines_eq) (lines_eq_refl xs)

lines_eq→eq : (xs ys : List Line) → lines_eq xs ys ≡ true → xs ≡ ys
unfolding lines_eq
lines_eq→eq [] [] h = refl
lines_eq→eq [] (_ ∷ _) h = cc
lines_eq→eq (_ ∷ _) [] h = cc
lines_eq→eq (x ∷ xs) (y ∷ ys) h = elim (Bool-cases (bytes_eq x y)) [
  | inl e ↦ ap₂ ◌∷◌ (bytes_eq→eq x y e) (lines_eq→eq xs ys (rw (e, lines_eq) at h))
  | inr e ↦ absurd (false-true (rw (e, lines_eq) at h))
]
  where
    false-true : false ≡ true → ⊥
    false-true p = cc

-- Two regions that share a base line, or that start at the same one.
abbrev pub Meets : Region → Region → Type 0
Meets r s = (r.b0 ≡ s.b0) ⊎ ((r.b0 < s.b1) × (s.b0 < r.b1))

gather-Meets :
    (a c : List Line) (r s : Region)
    → r.b0 ≤ r.b1
    → s.b0 ≤ s.b1
    → Meets r s
    → let start = min r.b0 s.b0 in
      gather 2 a c start start (fresh_side (r ∷ [])) (fresh_side (s ∷ []))
      ≡ (one a r [], one c s [], max r.b1 s.b1)
unfolding gather absorb touches
gather-Meets a c r s hr hs m = ground arith

-- Equal replacements are taken as the active side's.
both_taken : List Line → List Line → Region → ℕ → Progress → Progress
unfolding picked
both_taken b a r cb1 p = record {
  bi = min cb1 (length b);
  a_cursor = p.a_cursor + length (picked a r);
  out = p.out ++ picked a r;
  builder = push_active p.a_cursor (length (picked a r)) p.builder;
}

settle_both :
    (b a c : List Line) (r s : Region) (cb1 : ℕ) (p : Progress)
    → settle b p (one a r []) (one c s []) cb1
      ≡ (if lines_eq (picked a r) (picked c s) then some (both_taken b a r cb1 p) else none)
unfolding settle both_taken
settle_both b a c r s cb1 p = refl

turn_both :
    (b a c : List Line) (r s : Region)
    → r.b0 ≤ r.b1
    → s.b0 ≤ s.b1
    → Meets r s
    → let start = min r.b0 s.b0 in
      turn b a c start (r ∷ []) (s ∷ []) start_progress ≡ (
        one a r [],
        one c s [],
        if lines_eq (picked a r) (picked c s)
            then some (both_taken b a r (max r.b1 s.b1) (skipped b start start_progress))
            else none,
      )
turn_both b a c r s hr hs m =
    let start = min r.b0 s.b0 in
    turn_step b a c start (max r.b1 s.b1) 2 (r ∷ []) (s ∷ []) start_progress
      (skipped b start start_progress) (one a r []) (one c s []) _ refl
      (skip_to_lem b start start_progress (omega arith)) (gather-Meets a c r s hr hs m)
      (settle_both b a c r s (max r.b1 s.b1) (skipped b start start_progress))

loop_both :
    (b a c : List Line) (r s : Region) (same : Bool)
    → r.b0 ≤ r.b1
    → s.b0 ≤ s.b1
    → Meets r s
    → lines_eq (picked a r) (picked c s) ≡ same
    → merge_loop 3 b a c (r ∷ []) (s ∷ []) start_progress ≡ (
        if same
        then some
            (finish b (both_taken b a r (max r.b1 s.b1) (skipped b (min r.b0 s.b0) start_progress)))
        else some overlap)
unfolding merge_loop next_start
loop_both b a c r s true hr hs m e =
    rw (turn_both b a c r s hr hs m, merge_loop) (rw e (rw (turn_both b a c r s hr hs m)))
loop_both b a c r s false hr hs m e = rw (turn_both b a c r s hr hs m, merge_loop) (rw e)

-- One region on each side, and the two meet: the merge is a conflict exactly if the replacements
-- differ.
pub merge_regions-Meets :
    (b a c : List Line) (r s : Region)
    → r.b0 ≤ r.b1
    → s.b0 ≤ s.b1
    → Meets r s
    → (merge_regions b a c (r ∷ []) (s ∷ []) ≡ some overlap) ↔ (picked a r ≢ picked c s)
unfolding merge_regions finish
merge_regions-Meets b a c r s hr hs m = elim (Bool-cases (lines_eq (picked a r) (picked c s))) [
  | inl e ↦ (
    λ h. absurd (done-overlap _ (sym (loop_both b a c r s true hr hs m e) ∙ h)),
    λ n. absurd (n (lines_eq→eq (picked a r) (picked c s) e)),
  )
  | inr e ↦ (λ _ q. differ e q, λ _. loop_both b a c r s false hr hs m e)
]
  where
    done-overlap : (p : Progress) → some (finish b p) ≡ some overlap → ⊥
    done-overlap p h = cc

    differ : lines_eq (picked a r) (picked c s) ≡ false → picked a r ≡ picked c s → ⊥
    differ e q =
        let same : lines_eq (picked a r) (picked c s) ≡ true =
          subst (λ ls. lines_eq (picked a r) ls ≡ true) q (lines_eq_refl (picked a r)) in
        cc

-- Three base lines; the active side changes the first and the last, the command all three.
abbrev pub outer_regions : List Region
outer_regions =
    record { b0 = 0; b1 = 1; repl = 0 ∷ [] } ∷ record { b0 = 2; b1 = 3; repl = 2 ∷ [] } ∷ []

abbrev pub whole_region : List Region
whole_region = record { b0 = 0; b1 = 3; repl = 0 ∷ 1 ∷ [] } ∷ []

misattributed :
    (x k z p q : Line)
    → merge_regions (x ∷ k ∷ z ∷ []) (p ∷ k ∷ q ∷ []) (p ∷ q ∷ []) outer_regions whole_region
      ≡ some (done (p ∷ q ∷ []) (push_active 0 2 (record { ranges = []; next_line = 0 })))
unfolding merge_regions lines_eq picked push_active
misattributed x k z p q = ground (arith, bytes_eq_refl p, bytes_eq_refl q)

-- Where the active side changed the lines around a line that it kept, and the command replaced all
-- three by the same two new lines, the merge is clean, and its second line is given the origin of
-- the kept line, which it is not.
pub merge_regions-misattributes :
    (x k z p q : Line)
    → k ≢ q
    → let a = p ∷ k ∷ q ∷ [] in
      (builder : OriginBuilder) × (merge_regions
          (x ∷ k ∷ z ∷ [])
          a
          (p ∷ q ∷ [])
          outer_regions
          whole_region
        ≡ some (done (p ∷ q ∷ []) builder))
      × (expand builder.ranges ≡ active 0 ∷ active 1 ∷ [])
      × (get_elem? a 1 ≢ some q)
unfolding expand push_active run actives
merge_regions-misattributes x k z p q n =
    (push_active 0 2 builder_default, misattributed x k z p q, refl, λ e. n (cc))
