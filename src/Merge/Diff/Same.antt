-- ===== src/Merge/Diff/Same.antt =====
-- merge.rs: `diff` of a list with itself keeps every line, in its first round.
use ephemeral_sandbox.Prelude.{
  ℕ, zero, suc, ◌+◌, ◌-◌, ◌*◌, ◌≡◌, refl, ap, ◌∙◌, true, ◌&&◌, some, List, [], ◌∷◌, length, get_or,
  replicate, min, arith, drop, ==_iff, All, leb, ltb, Bool-cases, inl, inr,
}
use native.Mathlib.Numerals.{add-one}
use ephemeral_sandbox.Merge.Lines.{Line}
use ephemeral_sandbox.Merge.Diff.{
  myers_max_d, EditOp, eq, snake, from_above, furthest, round_from, rounds_from, back_snake,
  entering, backtrack_from, search_script, diff,
}
use ephemeral_sandbox.Merge.Diff.Equal.{bytes_eq_refl}
use ephemeral_sandbox.Merge.Diff.Points.{furthest-above}
use ephemeral_sandbox.Merge.Diff.Scripts.{get_or-replicate}

abbrev pub Kept : List EditOp → Type 0
Kept = All (λ op. op.kind ≡ eq)

snake-same : (b : List Line) → snake b b ≡ length b
unfolding snake
snake-same [] = refl
snake-same (l ∷ b) = rw (bytes_eq_refl l, snake) (ap suc (snake-same b))

back_snake-Kept :
    (off px pi x y : ℕ) (ops : List EditOp) → Kept ops → Kept (back_snake off px pi x y ops).2
unfolding back_snake
back_snake-Kept off px pi zero y ops k = k
back_snake-Kept off px pi (suc x) y ops k =
    elim (Bool-cases (ltb px (suc x) && ltb (px + off) (y + pi))) [
      | inl e ↦
          rw (e, back_snake)
            (back_snake-Kept off px pi x (y - 1) (record { kind = eq; b = y - 1 } ∷ ops) (refl, k))
      | inr e ↦ rw (e, back_snake) k
    ]

backtrack_from-Kept : (off x y : ℕ) (v : List ℕ) → Kept (backtrack_from off (v ∷ []) x y [])
unfolding backtrack_from entering
backtrack_from-Kept off x y v = back_snake-Kept off _ _ x y [] tt

first_round :
    (b : List Line) (off : ℕ) (v : List ℕ)
    → get_or v (off + 1) 0 ≡ 0
    → furthest b b off 0 off v ≡ length b
unfolding from_above
first_round b off v e = furthest-above b b off 0 off v above ∙ ap at_x e ∙ whole
  where
    at_x : ℕ → ℕ
    at_x x = x + snake (drop x b) (drop (x + off - off) b)

    still : off + 0 ≡ off
    still = omega arith

    none_yet : 0 + off - off ≡ 0
    none_yet = omega arith

    above : from_above off 0 off v ≡ true
    above = rw (still, (==_iff off off).1 refl, from_above) refl

    whole : at_x 0 ≡ length b
    whole = rw (none_yet, snake-same b) (omega arith)

rounds_from-same :
    (b : List Line) (off : ℕ) (v : List ℕ)
    → get_or v (off + 1) 0 ≡ 0
    → rounds_from b b off (suc off) 0 v [] ≡ some (v ∷ [])
unfolding rounds_from round_from
rounds_from-same b off v e = rw (index, first_round b off v e, there, rounds_from) refl
  where
    index : off - 0 ≡ off
    index = omega arith

    there : leb (length b) (length b) && leb (length b) (length b + off - off) ≡ true
    there = ground arith

search_script-Kept : (b : List Line) → Kept (search_script b b)
unfolding search_script
search_script-Kept b = rw (found, search_script) (backtrack_from-Kept off (length b) (length b) v)
  where
    off : ℕ
    off = min (length b + length b) myers_max_d

    v : List ℕ
    v = replicate (2 * off + 1) 0

    found : rounds_from b b off (off + 1) 0 v [] ≡ some (v ∷ [])
    found = rw (add-one off) (rounds_from-same b off v (get_or-replicate (2 * off + 1) (off + 1)))

-- The script from a list to itself keeps every line.
pub diff-Kept : (b : List Line) → Kept (diff b b)
unfolding diff
diff-Kept [] = tt
diff-Kept (l ∷ b) = search_script-Kept (l ∷ b)
