-- ===== src/Merge/Diff/Moves.antt =====
-- merge.rs: each diagonal of a round of `diff` takes the step from the diagonal above or from the left.
use ephemeral_sandbox.Prelude.{
  ℕ, zero, suc, ◌+◌, ◌-◌, ◌*◌, ◌≤◌, ◌<◌, ◌≡◌, ◌⊎◌, refl, ap, ◌∙◌, true, false, List, [], ◌∷◌, ltb,
  ◌==◌, get_or, drop, arith, Bool-cases, inl, inr, ==_iff, ltb→lt,
}
use ephemeral_sandbox.Merge.Lines.{Line}
use ephemeral_sandbox.Merge.Diff.{snake, from_above, furthest}
use ephemeral_sandbox.Merge.Diff.Backward.{Reaches-above, Reaches-left}
use ephemeral_sandbox.Merge.Diff.Points.{
  last, Before, Moved, furthest-above, furthest-left, snake-drop_le, less-==_lem, more-==_lem,
  Moved-start,
}

module _ (a b : List Line) (off d o : ℕ) (older : List (List ℕ)) (v : List ℕ)
    (before : Before a b off (suc d) o older v) where
  next_index : (t : ℕ) → o + 2 * t + 1 ≡ o + 1 + 2 * t
  next_index t = omega arith

  previous_index : (s : ℕ) → o + 2 * suc s - 1 ≡ o + 1 + 2 * s
  previous_index s = omega arith

  Moved-above :
      (t : ℕ)
      → t < suc d
      → from_above off (suc d) (o + 2 * t) v ≡ true
      → ((s : ℕ) → t ≡ suc s → last v o s < last v o t)
      → Moved a b off (suc d) o older v t (furthest a b off (suc d) (o + 2 * t) v)
  Moved-above t h above rise = record {
    from = x;
    n = snake (drop x a) (drop (x + off - i) b);
    sum = furthest-above a b off (suc d) i v above;
    n_right = (snake-drop_le a b x (x + off - i)).0;
    n_below = (snake-drop_le a b x (x + off - i)).1;
    step = inr (inl (h, ap (λ j. get_or v j 0) (next_index t), rise));
    reaches = rw (furthest-above a b off (suc d) i v above) (
        Reaches-above a b off d older v i before.rounds (rw (next_index t) (before.inside t h))
          above (rw (next_index t) (before.reached t h)));
  }
    where
      i : ℕ
      i = o + 2 * t

      x : ℕ
      x = get_or v (i + 1) 0

  Moved-left :
      (s : ℕ)
      → s < suc d
      → from_above off (suc d) (o + 2 * suc s) v ≡ false
      → (suc s < suc d → last v o (suc s) ≤ last v o s)
      → Moved a b off (suc d) o older v (suc s) (furthest a b off (suc d) (o + 2 * suc s) v)
  Moved-left s h left fall = record {
    from = x + 1;
    n = snake (drop (x + 1) a) (drop (x + 1 + off - i) b);
    sum = furthest-left a b off (suc d) i v left;
    n_right = (snake-drop_le a b (x + 1) (x + 1 + off - i)).0;
    n_below = (snake-drop_le a b (x + 1) (x + 1 + off - i)).1;
    step = inr (inr (s, refl, ap (λ j. get_or v j 0 + 1) (previous_index s), fall));
    reaches = rw (furthest-left a b off (suc d) i v left) (
        Reaches-left a b off d older v i before.rounds (omega arith)
          (rw (previous_index s) (omega (arith, before.inside s h))) left
          (rw (previous_index s) (before.reached s h)));
  }
    where
      i : ℕ
      i = o + 2 * suc s

      x : ℕ
      x = get_or v (i - 1) 0

  from_above-first : from_above off (suc d) (o + 2 * 0) v ≡ true
  unfolding from_above
  from_above-first = rw (e, (==_iff off off).1 refl, from_above) refl
    where
      e : o + 2 * 0 + suc d ≡ off
      e = omega (arith, before.origin)

  from_above-inner :
      (s : ℕ)
      → suc s < suc d
      → from_above off (suc d) (o + 2 * suc s) v ≡ ltb (last v o s) (last v o (suc s))
  unfolding from_above
  from_above-inner s h =
      rw
        (
          more-==_lem (o + 2 * suc s + suc d) off (omega (arith, before.origin)),
          less-==_lem (o + 2 * suc s) (off + suc d) (omega (arith, before.origin)),
          previous_index s,
          next_index (suc s),
          from_above,
        )
        refl

  from_above-last : (s : ℕ) → s ≡ d → from_above off (suc d) (o + 2 * suc s) v ≡ false
  unfolding from_above
  from_above-last s h =
      rw
        (
          more-==_lem (o + 2 * suc s + suc d) off (omega (arith, before.origin)),
          (==_iff (o + 2 * suc s) (off + suc d)).1 (omega (arith, before.origin)),
          from_above,
        )
        refl

  Moved-inner :
      (s : ℕ)
      → suc s < suc d
      → Moved a b off (suc d) o older v (suc s) (furthest a b off (suc d) (o + 2 * suc s) v)
  Moved-inner s h = elim (Bool-cases (ltb (last v o s) (last v o (suc s)))) [
    | inl e ↦
        Moved-above (suc s) h (from_above-inner s h ∙ e)
          (λ r k. rw (same r k) (ltb→lt (last v o s) (last v o (suc s)) e))
    | inr e ↦
        Moved-left s (omega arith) (from_above-inner s h ∙ e)
          (λ k. not_lt (last v o s) (last v o (suc s)) e)
  ]
    where
      same : (r : ℕ) → suc s ≡ suc r → r ≡ s
      same r k = omega arith

      not_lt : (x y : ℕ) → ltb x y ≡ false → y ≤ x
      not_lt x y e = ground arith

  Moved-suc :
      (t : ℕ)
      → t ≤ suc d
      → Moved a b off (suc d) o older v t (furthest a b off (suc d) (o + 2 * t) v)
  Moved-suc zero h = Moved-above 0 (omega arith) from_above-first (λ s e. absurd (omega arith))
  Moved-suc (suc s) h = elim (Bool-cases (s == d)) [
    | inl e ↦
        Moved-left s (omega arith) (from_above-last s ((==_iff s d).0 e))
          (λ k. absurd (omega (arith, (==_iff s d).0 e)))
    | inr e ↦ Moved-inner s (omega (arith, differ s d e))
  ]
    where
      differ : (x y : ℕ) → (x == y) ≡ false → (x < y) ⊎ (y < x)
      differ x y e = ground arith

pub furthest-Moved :
    (a b : List Line) (off d o : ℕ) (older : List (List ℕ)) (v : List ℕ) (t : ℕ)
    → Before a b off d o older v
    → t ≤ d
    → Moved a b off d o older v t (furthest a b off d (o + 2 * t) v)
furthest-Moved a b off zero o [] v zero before h = Moved-start a b off o v before
furthest-Moved a b off zero o [] v (suc t) before h = absurd (omega arith)
furthest-Moved a b off zero o (u ∷ older) v t before h = absurd (omega (arith, before.rounds))
furthest-Moved a b off (suc d) o older v t before h = Moved-suc a b off d o older v before t h
