-- ===== src/Merge/Diff/Points.antt =====
-- merge.rs: the furthest points of a round of `diff` against those of the two rounds before it, which
-- stand in one array: a diagonal `o + 1 + 2 * s` holds the round before, `o + 2 * s` the one before that.
use ephemeral_sandbox.Prelude.{
  ℕ, suc, ◌+◌, ◌-◌, ◌*◌, ◌≤◌, ◌<◌, ◌≡◌, ◌⊎◌, refl, ap, ◌∙◌, true, false, List, [], ◌∷◌, ◌==◌,
  length, get_or, drop, arith, Bool-cases, inl, inr, length-drop, ==_iff,
}
use ephemeral_sandbox.Merge.Lines.{Line}
use ephemeral_sandbox.Merge.Diff.{bytes_eq, snake, from_above, furthest}
use ephemeral_sandbox.Merge.Diff.Backward.{Reaches, Reaches-start}
use ephemeral_sandbox.Merge.Diff.Forward.{arrived}

abbrev pub last : List ℕ → ℕ → ℕ → ℕ
last v o s = get_or v (o + 1 + 2 * s) 0

abbrev pub before_last : List ℕ → ℕ → ℕ → ℕ
before_last v o s = get_or v (o + 2 * s) 0

-- The array before round `d`, with the trace so far. A point that lies outside of the lists comes
-- from one that lies further inside, and the ends are not reached yet.
pub record Before (a b : List Line) (off d o : ℕ) (older : List (List ℕ)) (v : List ℕ)
    : Type 0 where
  pub origin : o + d ≡ off
  pub rounds : length older ≡ d
  pub width : length v ≡ 2 * off + 1
  pub initial : d ≡ 0 → get_or v (o + 1) 0 ≡ 0
  pub reached : (s : ℕ) → s < d → Reaches a b off older (o + 1 + 2 * s) (last v o s)
  pub inside : (s : ℕ) → s < d → o + 1 + 2 * s ≤ last v o s + off
  pub right :
      (s : ℕ) → s < d → length a < last v o s → (1 ≤ s) × (last v o s ≤ before_last v o s + 1)
  pub below :
      (s : ℕ)
      → s < d
      → length b + (o + 1 + 2 * s) < last v o s + off
      → (suc s < d) × (last v o s ≤ before_last v o (suc s))
  pub further :
      (s : ℕ)
      → suc s < d
      → (before_last v o (suc s) ≤ last v o s) × (before_last v o (suc s) + 1 ≤ last v o (suc s))
  pub going : (s : ℕ) → s < d → arrived a b off (o + 1 + 2 * s) (last v o s) ≡ false

snake_le : (as' bs : List Line) → (snake as' bs ≤ length as') × (snake as' bs ≤ length bs)
unfolding snake
snake_le [] bs = omega arith
snake_le (l ∷ as') [] = omega arith
snake_le (l ∷ as') (r ∷ bs) = elim (Bool-cases (bytes_eq l r)) [
  | inl e ↦ let h = snake_le as' bs in rw (e, snake) (omega arith, omega arith)
  | inr e ↦ rw (e, snake) (omega arith, omega arith)
]

-- How a diagonal of a round gets its point: a step, then `n` diagonal ones.
pub record Moved (a b : List Line) (off d o : ℕ) (older : List (List ℕ)) (v : List ℕ) (t x : ℕ)
    : Type 0 where
  pub from : ℕ
  pub n : ℕ
  pub sum : x ≡ from + n
  pub n_right : n ≤ length a - from
  pub n_below : n ≤ length b - (from + off - (o + 2 * t))
  pub step :
      (d ≡ 0) × (from ≡ 0)
      ⊎ (t < d) × (from ≡ last v o t) × ((s : ℕ) → t ≡ suc s → last v o s < last v o t)
      ⊎ (s : ℕ) × (t ≡ suc s) × (from ≡ last v o s + 1) × (t < d → last v o t ≤ last v o s)
  pub reaches : Reaches a b off (v ∷ older) (o + 2 * t) x

pub furthest-above :
    (a b : List Line) (off d i : ℕ) (v : List ℕ)
    → from_above off d i v ≡ true
    → let x = get_or v (i + 1) 0 in
      furthest a b off d i v ≡ x + snake (drop x a) (drop (x + off - i) b)
unfolding furthest
furthest-above a b off d i v e = rw (e, furthest) refl

pub furthest-left :
    (a b : List Line) (off d i : ℕ) (v : List ℕ)
    → from_above off d i v ≡ false
    → let x = get_or v (i - 1) 0 + 1 in
      furthest a b off d i v ≡ x + snake (drop x a) (drop (x + off - i) b)
unfolding furthest
furthest-left a b off d i v e = rw (e, furthest) refl

pub snake-drop_le :
    (a b : List Line) (x y : ℕ)
    → (snake (drop x a) (drop y b) ≤ length a - x) × (snake (drop x a) (drop y b) ≤ length b - y)
snake-drop_le a b x y =
    let h = snake_le (drop x a) (drop y b) in
    (omega (arith, h.0, length-drop x a), omega (arith, h.1, length-drop y b))

pub less-==_lem : (x y : ℕ) → x < y → (x == y) ≡ false
less-==_lem x y h = ground arith

pub more-==_lem : (x y : ℕ) → y < x → (x == y) ≡ false
more-==_lem x y h = ground arith

pub Moved-start :
    (a b : List Line) (off o : ℕ) (v : List ℕ)
    → Before a b off 0 o [] v
    → Moved a b off 0 o [] v 0 (furthest a b off 0 (o + 2 * 0) v)
unfolding from_above
Moved-start a b off o v before = record {
  from = 0;
  n = snake (drop 0 a) (drop (0 + off - i) b);
  sum = furthest-above a b off 0 i v above ∙ ap at_x zero_there;
  n_right = (snake-drop_le a b 0 (0 + off - i)).0;
  n_below = (snake-drop_le a b 0 (0 + off - i)).1;
  step = inl (refl, refl);
  reaches =
      rw (furthest-above a b off 0 i v above ∙ ap at_x zero_there)
        (Reaches-start a b off i v zero_there (omega (arith, before.origin)) above);
}
  where
    i : ℕ
    i = o + 2 * 0

    at_x : ℕ → ℕ
    at_x x = x + snake (drop x a) (drop (x + off - i) b)

    here : (o ≡ off) × (o + 2 * 0 + 0 ≡ off)
    here = omega (arith, before.origin)

    above : from_above off 0 i v ≡ true
    above = rw (here.1, (==_iff off off).1 refl, from_above) refl

    same : o + 2 * 0 + 1 ≡ o + 1
    same = omega arith

    zero_there : get_or v (i + 1) 0 ≡ 0
    zero_there = rw same (before.initial refl)
