-- ===== src/Merge/Diff/Backward.antt =====
-- merge.rs: the steps of `backtrack` against those of `diff`. A furthest point of a round is reached
-- where each script from it to the ends becomes one from the starts when `backtrack` goes on.
use ephemeral_sandbox.Prelude.{
  ℕ, zero, suc, ◌+◌, ◌-◌, ◌≤◌, ◌<◌, ◌≡◌, refl, true, false, ◌&&◌, List, [], ◌∷◌, ltb, lt→ltb, ◌==◌,
  if◌then◌else◌, length, get_or, drop, arith, ==_iff, Bool-cases, inl, inr,
}
use native.Mathlib.Numerals.{add-one}
use ephemeral_sandbox.Merge.Lines.{Line}
use ephemeral_sandbox.Merge.Diff.{
  eq, del, ins, EditOp, bytes_eq, snake, from_above, back_snake, entering, backtrack_from,
}
use ephemeral_sandbox.Merge.Diff.Equal.{bytes_eq→eq}
use ephemeral_sandbox.Merge.Regions.Follows.{Script, keep, cut, add, Script-le}

get_or-drop : (p i : ℕ) (xs : List Line) → get_or (drop p xs) i [] ≡ get_or xs (p + i) []
get_or-drop zero i xs = let e : 0 + i ≡ i = omega arith in rw e
get_or-drop (suc p) i [] = refl
get_or-drop (suc p) i (x ∷ xs) =
    let e : suc p + i ≡ suc (p + i) = omega arith in rw e (get_or-drop p i xs)

snake-agrees : (as' bs : List Line) (i : ℕ) → i < snake as' bs → get_or as' i [] ≡ get_or bs i []
unfolding snake
snake-agrees [] bs i h = absurd (omega arith)
snake-agrees (l ∷ as') [] i h = absurd (omega arith)
snake-agrees (l ∷ as') (r ∷ bs) i h = elim (Bool-cases (bytes_eq l r)) [
  | inl e ↦ agrees i (snake-agrees as' bs) (bytes_eq→eq l r e) (rw (e, snake) at h)
  | inr e ↦ absurd (below_zero (rw (e, snake) at h))
]
  where
    below_zero : i < 0 → ⊥
    below_zero k = omega arith

    agrees :
        (i : ℕ)
        → ((i : ℕ) → i < snake as' bs → get_or as' i [] ≡ get_or bs i [])
        → l ≡ r
        → i < suc (snake as' bs)
        → get_or (l ∷ as') i [] ≡ get_or (r ∷ bs) i []
    agrees zero rest e k = e
    agrees (suc i) rest e k = rest i (omega arith)

-- The diagonal steps of `backtrack` undo those of `diff`: `n` of them, that end in `sx` and `sy`.
back_snake-Script :
    (a b : List Line) (off px pi sx sy n x y : ℕ) (ops : List EditOp)
    → x ≡ sx + n
    → y ≡ sy + n
    → px ≤ sx
    → px + off ≤ sy + pi
    → ltb px sx && ltb (px + off) (sy + pi) ≡ false
    → ((i : ℕ) → i < n → get_or a (sx + i) [] ≡ get_or b (sy + i) [])
    → Script a b x y ops
    → (ops' : List EditOp) × (back_snake off px pi x y ops ≡ (sx, sy, ops')) × Script a b sx sy ops'
unfolding back_snake
back_snake-Script a b off px pi sx sy zero zero y ops ex ey hx hy stop agree s =
    let e : 0 ≡ sx = omega arith in
    let f : y ≡ sy = omega arith in (ops, rw (← e, ← f), rw (← e, ← f) s)
back_snake-Script a b off px pi sx sy zero (suc x) y ops ex ey hx hy stop agree s =
    let e : sx ≡ suc x = omega arith in
    let f : sy ≡ y = omega arith in (ops, rw (e, f, rw (e, f) at stop) refl, rw (e, f) s)
back_snake-Script a b off px pi sx sy (suc n) zero y ops ex ey hx hy stop agree s =
    absurd (omega arith)
back_snake-Script a b off px pi sx sy (suc n) (suc x) y ops ex ey hx hy stop agree s =
    let (ops', e, s') =
      back_snake-Script a b off px pi sx sy n x (y - 1) (record { kind = eq; b = y - 1 } ∷ ops)
        (omega arith) (omega arith) hx hy stop (λ i h. agree i (omega arith)) kept in
    (
      ops',
      rw (lt→ltb px (suc x) (omega arith), lt→ltb (px + off) (y + pi) (omega arith), back_snake) e,
      s',
    )
  where
    back : y - 1 + 1 ≡ y
    back = omega arith

    at_x : sx + n ≡ x
    at_x = omega arith

    at_y : sy + n ≡ y - 1
    at_y = omega arith

    kept : Script a b x (y - 1) (record { kind = eq; b = y - 1 } ∷ ops)
    kept =
        keep (omega (arith, (Script-le a b s).0)) (omega (arith, (Script-le a b s).1))
          (rw (← at_x, ← at_y) (agree n (omega arith))) (rw (add-one x, back) s)

-- The point `x` of the diagonal `i` is reached by the rounds of the trace.
abbrev pub Reaches : List Line → List Line → ℕ → List (List ℕ) → ℕ → ℕ → Type 0
Reaches a b off trace i x =
    (ops : List EditOp)
    → Script a b x (x + off - i) ops
    → Script a b 0 0 (backtrack_from off trace x (x + off - i) ops)

entering-ins :
    (d d' x y : ℕ) (ops : List EditOp)
    → d ≡ suc d'
    → entering d x x y ops ≡ record { kind = ins; b = y - 1 } ∷ ops
unfolding entering
entering-ins d d' x y ops e = rw (e, (==_iff x x).1 refl, entering) refl

entering-del :
    (d d' x y : ℕ) (ops : List EditOp)
    → d ≡ suc d'
    → entering d x (x + 1) y ops ≡ record { kind = del; b = 0 } ∷ ops
unfolding entering
entering-del d d' x y ops e = rw (e, differs, entering) refl
  where
    differs : (x + 1 == x) ≡ false
    differs = ground arith

-- One round of `backtrack`, from the values that it computes.
backtrack_from-round :
    (off x y i pi px sx sy : ℕ) (v : List ℕ) (older : List (List ℕ)) (ops ops' : List EditOp)
    → x + off - y ≡ i
    → (if from_above off (length older) i v then i + 1 else i - 1) ≡ pi
    → get_or v pi 0 ≡ px
    → back_snake off px pi x y ops ≡ (sx, sy, ops')
    → backtrack_from off (v ∷ older) x y ops
      ≡ backtrack_from off older px (px + off - pi) (entering (length older) px sx sy ops')
unfolding backtrack_from
backtrack_from-round off x y i pi px sx sy v older ops ops' ei ep ex eb =
    rw (ei, ep, ex, eb, backtrack_from) refl

module _ (a b : List Line) (off i : ℕ) where
  -- The snake from `sx` as one equation of `backtrack`.
  snake-back :
      (px pi sx : ℕ) (ops : List EditOp)
      → i ≤ sx + off
      → px ≤ sx
      → px + off ≤ sx + off - i + pi
      → ltb px sx && ltb (px + off) (sx + off - i + pi) ≡ false
      → let x = sx + snake (drop sx a) (drop (sx + off - i) b) in
        Script a b x (x + off - i) ops
        → (ops' : List EditOp) × (back_snake off px pi x (x + off - i) ops
            ≡ (sx, sx + off - i, ops'))
          × Script a b sx (sx + off - i) ops'
  snake-back px pi sx ops hi hx hy stop s =
      let n = snake (drop sx a) (drop (sx + off - i) b) in
      back_snake-Script a b off px pi sx (sx + off - i) n (sx + n) (sx + n + off - i) ops refl
        (omega arith) hx hy stop
        (λ j h.
          rw (← get_or-drop sx j a, ← get_or-drop (sx + off - i) j b)
            (snake-agrees (drop sx a) (drop (sx + off - i) b) j h))
        s

  pub Reaches-start :
      (v : List ℕ)
      → get_or v (i + 1) 0 ≡ 0
      → i ≡ off
      → from_above off 0 i v ≡ true
      → Reaches a b off (v ∷ []) i (0 + snake (drop 0 a) (drop (0 + off - i) b))
  unfolding backtrack_from entering
  Reaches-start v zero_there hi above ops s =
      let n = snake (drop 0 a) (drop (0 + off - i) b) in
      let (ops', e, s') =
        snake-back 0 (i + 1) 0 ops (omega arith) (omega arith) (omega arith) (stop (0 + off - i))
          s in
      rw
        (backtrack_from-round off (0 + n) (0 + n + off - i) i (i + 1) 0 0 (0 + off - i) v [] ops
          ops' (omega arith) (rw above refl) zero_there e)
        (rw ends at s')
    where
      stop : (y : ℕ) → ltb 0 0 && ltb (0 + off) (y + (i + 1)) ≡ false
      stop y = refl

      ends : 0 + off - i ≡ 0
      ends = omega arith

module _ (a b : List Line) (off d : ℕ) (older : List (List ℕ)) (v : List ℕ) (i : ℕ)
    (rounds : length older ≡ suc d) where
  pub Reaches-above :
      let x = get_or v (i + 1) 0 in
      i + 1 ≤ x + off
      → from_above off (suc d) i v ≡ true
      → Reaches a b off older (i + 1) x
      → Reaches a b off (v ∷ older) i (x + snake (drop x a) (drop (x + off - i) b))
  Reaches-above hi above before ops s =
      let x = get_or v (i + 1) 0 in
      let n = snake (drop x a) (drop (x + off - i) b) in
      let (ops', e, s') =
        snake-back a b off i x (i + 1) x ops (omega arith) (omega arith) (omega arith) (stop x) s in
      rw
        (
          backtrack_from-round off (x + n) (x + n + off - i) i (i + 1) x x (x + off - i) v older ops
              ops' (omega arith) (rw (rounds, above) refl) refl e,
          entering-ins (length older) d x (x + off - i) ops' rounds,
          same_line x,
        )
        (before (record { kind = ins; b = x + off - (i + 1) } ∷ ops')
          (add (omega (arith, (Script-le a b s').1)) (rw (next_line x hi) s')))
    where
      stop : (x : ℕ) → ltb x x && ltb (x + off) (x + off - i + (i + 1)) ≡ false
      stop x = ground arith

      same_line : (x : ℕ) → x + off - i - 1 ≡ x + off - (i + 1)
      same_line x = omega arith

      next_line : (x : ℕ) → i + 1 ≤ x + off → x + off - (i + 1) + 1 ≡ x + off - i
      next_line x h = omega arith

  pub Reaches-left :
      let x = get_or v (i - 1) 0 in
      1 ≤ i
      → i ≤ x + 1 + off
      → from_above off (suc d) i v ≡ false
      → Reaches a b off older (i - 1) x
      → Reaches a b off (v ∷ older) i (x + 1 + snake (drop (x + 1) a) (drop (x + 1 + off - i) b))
  Reaches-left hi ho left before ops s =
      let x = get_or v (i - 1) 0 in
      let n = snake (drop (x + 1) a) (drop (x + 1 + off - i) b) in
      let (ops', e, s') =
        snake-back a b off i x (i - 1) (x + 1) ops ho (omega arith) (omega arith) (stop x hi ho)
          s in
      rw
        (
          backtrack_from-round off (x + 1 + n) (x + 1 + n + off - i) i (i - 1) x (x + 1)
              (x + 1 + off - i) v older ops ops' (omega arith) (rw (rounds, left) refl) refl e,
          entering-del (length older) d x (x + 1 + off - i) ops' rounds,
        )
        (before (record { kind = del; b = 0 } ∷ ops')
          (cut (omega (arith, (Script-le a b s').0)) (rw (same_line x hi) s')))
    where
      stop :
          (x : ℕ)
          → 1 ≤ i
          → i ≤ x + 1 + off
          → ltb x (x + 1) && ltb (x + off) (x + 1 + off - i + (i - 1)) ≡ false
      stop x h k = ground arith

      same_line : (x : ℕ) → 1 ≤ i → x + off - (i - 1) ≡ x + 1 + off - i
      same_line x h = omega arith
