-- ===== src/Merge/Diff/Search.antt =====
-- merge.rs: the rounds of `diff` lead from one array to the next, and the first point that reaches
-- the ends of both lists is the pair of their lengths, from which `backtrack` starts.
use ephemeral_sandbox.Prelude.{
  ℕ, zero, suc, ◌+◌, ◌-◌, ◌*◌, ◌≤◌, ◌<◌, ◌≡◌, refl, ap, ap₂, ◌∙◌, true, false, List, ◌∷◌, length,
  get_or, arith, inl, inr,
}
use ephemeral_sandbox.Merge.Lines.{Line}
use ephemeral_sandbox.Merge.Diff.{furthest}
use ephemeral_sandbox.Merge.Diff.Backward.{Reaches}
use ephemeral_sandbox.Merge.Diff.Forward.{arrived, Written}
use ephemeral_sandbox.Merge.Diff.Points.{last, before_last, Before, Moved}
use ephemeral_sandbox.Merge.Diff.Moves.{furthest-Moved}

not_arrived :
    (a b : List Line) (off i x : ℕ)
    → arrived a b off i x ≡ false
    → length a ≤ x
    → length b ≤ x + off - i
    → ⊥
not_arrived a b off i x h k l = ground arith

arrived_le :
    (a b : List Line) (off i x : ℕ)
    → arrived a b off i x ≡ true
    → (length a ≤ x) × (length b ≤ x + off - i)
arrived_le a b off i x h = ground arith

module _ (a b : List Line) (off d o : ℕ) (older : List (List ℕ)) (v : List ℕ)
    (before : Before a b off d o older v) where
  moved-inside : (t x : ℕ) → Moved a b off d o older v t x → t ≤ d → o + 2 * t ≤ x + off
  moved-inside t x m h = elim m.step [
    | inl (e, f) ↦ omega (arith, before.origin)
    | inr (inl (k, e, rise)) ↦ omega (arith, m.sum, before.inside t k)
    | inr (inr (s, e, f, fall)) ↦ omega (arith, m.sum, before.inside s)
  ]

  right-last :
      (t : ℕ)
      → t < d
      → length a < last v o t
      → (s : ℕ) × (t ≡ suc s) × (last v o t ≤ last v o s + 1)
  right-last zero k beyond = absurd (omega (arith, before.right 0 k beyond))
  right-last (suc s) k beyond =
      (s, refl, omega (arith, before.right (suc s) k beyond, before.further s k))

  below-last :
      (s : ℕ)
      → s < d
      → length b + (o + 1 + 2 * s) < last v o s + off
      → (suc s < d) × (last v o s + 1 ≤ last v o (suc s))
  below-last s k beyond =
      let h = before.below s k beyond in (h.0, omega (arith, h.1, before.further s h.0))

  -- Beyond the end of the first list: one step to the right of a point of the round before.
  moved-right :
      (t x : ℕ)
      → Moved a b off d o older v t x
      → t ≤ d
      → length a < x
      → (s : ℕ) × (t ≡ suc s) × (x ≤ last v o s + 1)
  moved-right t x m h beyond = elim m.step [
    | inl (e, f) ↦ absurd (omega (arith, m.sum, m.n_right))
    | inr (inl (k, e, rise)) ↦
        let (s, e', l) = right-last t k (omega (arith, m.sum, m.n_right)) in
        (s, e', omega (arith, m.sum, m.n_right))
    | inr (inr (s, e, f, fall)) ↦ (s, e, omega (arith, m.sum, m.n_right))
  ]

  -- Beyond the end of the second list: one step below a point of the round before.
  moved-below :
      (t x : ℕ)
      → Moved a b off d o older v t x
      → t ≤ d
      → length b + (o + 2 * t) < x + off
      → (t < d) × (x ≤ last v o t)
  moved-below t x m h beyond = elim m.step [
    | inl (e, f) ↦ absurd (omega (arith, m.sum, m.n_below, before.origin))
    | inr (inl (k, e, rise)) ↦ (k, omega (arith, m.sum, m.n_below, before.inside t k))
    | inr (inr (s, e, f, fall)) ↦
        let l = below-last s (omega arith) (omega (arith, m.sum, m.n_below)) in
        (omega (arith, l.0), rw e (omega (arith, m.sum, m.n_below, l.1)))
  ]

  moved-further :
      (s x y : ℕ)
      → Moved a b off d o older v s x
      → Moved a b off d o older v (suc s) y
      → s < d
      → (last v o s ≤ x) × (last v o s + 1 ≤ y)
  moved-further s x y m m' h = (
    elim m.step [
      | inl (e, f) ↦ absurd (omega arith)
      | inr (inl (k, e, rise)) ↦ omega (arith, m.sum)
      | inr (inr (r, e, f, fall)) ↦ omega (arith, m.sum, fall h)
    ],
    elim m'.step [
      | inl (e, f) ↦ absurd (omega arith)
      | inr (inl (k, e, rise)) ↦ omega (arith, m'.sum, rise s refl)
      | inr (inr (r, e, f, fall)) ↦ omega (arith, m'.sum, ap (last v o) (same r e))
    ],
  )
    where
      same : (r : ℕ) → suc s ≡ suc r → r ≡ s
      same r e = omega arith

  -- The first point at the ends is the pair of the lengths.
  pub ends_lem :
      (t : ℕ)
      → t ≤ d
      → arrived a b off (o + 2 * t) (furthest a b off d (o + 2 * t) v) ≡ true
      → (length a ≡ furthest a b off d (o + 2 * t) v)
        × (length b ≡ furthest a b off d (o + 2 * t) v + off - (o + 2 * t))
  ends_lem t h there =
      let m = furthest-Moved a b off d o older v t before h in
      let l = arrived_le a b off (o + 2 * t) x there in
      let r = not_lt (length a) x (no_right m l) in
      let u = not_lt (length b + (o + 2 * t)) (x + off) (no_below m l) in
      (omega (arith, l, r), omega (arith, l, u, moved-inside t x m h))
    where
      x : ℕ
      x = furthest a b off d (o + 2 * t) v

      not_lt : (j k : ℕ) → (j < k → ⊥) → k ≤ j
      not_lt j k f = ground arith

      no_right :
          Moved a b off d o older v t x
          → (length a ≤ x) × (length b ≤ x + off - (o + 2 * t))
          → length a < x
          → ⊥
      no_right m l beyond =
          let (s, e, k) = moved-right t x m h beyond in
          not_arrived a b off (o + 1 + 2 * s) (last v o s) (before.going s (omega arith))
            (omega arith) (omega (arith, l))

      no_below :
          Moved a b off d o older v t x
          → (length a ≤ x) × (length b ≤ x + off - (o + 2 * t))
          → length b + (o + 2 * t) < x + off
          → ⊥
      no_below m l beyond =
          let (k, e) = moved-below t x m h beyond in
          not_arrived a b off (o + 1 + 2 * t) (last v o t) (before.going t k) (omega (arith, l))
            (omega arith)

Reaches-at :
    (a b : List Line) (off : ℕ) (trace : List (List ℕ)) {i j x y : ℕ}
    → i ≡ j
    → x ≡ y
    → Reaches a b off trace j y
    → Reaches a b off trace i x
Reaches-at a b off trace e f r = rw (e, f) r

module _ (a b : List Line) (off d o : ℕ) (older : List (List ℕ)) (v w : List ℕ)
    (before : Before a b off d (suc o) older v) (all : Written a b off d (suc d) (suc o) v w) where
  abbrev point : ℕ → ℕ
  point s = furthest a b off d (suc o + 2 * s) v

  moved : (s : ℕ) → s < suc d → Moved a b off d (suc o) older v s (point s)
  moved s h = furthest-Moved a b off d (suc o) older v s before (omega arith)

  index_last : (s : ℕ) → o + 1 + 2 * s ≡ suc o + 2 * s
  index_last s = omega arith

  now_last : (s : ℕ) → s < suc d → last w o s ≡ point s
  now_last s h = ap (λ j. get_or w j 0) (index_last s) ∙ all.new s h

  now_before : (s : ℕ) → before_last w o (suc s) ≡ last v (suc o) s
  now_before s =
      ap (λ j. get_or w j 0) (index s) ∙ all.old (suc o + 1 + 2 * s) (λ t k e. omega arith)
    where
      index : (s : ℕ) → o + 2 * suc s ≡ suc o + 1 + 2 * s
      index s = omega arith

  now_right :
      (s : ℕ) → s < suc d → length a < last w o s → (1 ≤ s) × (last w o s ≤ before_last w o s + 1)
  now_right s h beyond =
      let (r, e, l) =
        moved-right a b off d (suc o) older v before s (point s) (moved s h) (omega arith)
          (omega (arith, now_last s h)) in
      (omega arith, rw e (omega (arith, now_last s h, now_before r, l, ap (last w o) e)))

  pub Before-suc : Before a b off (suc d) o (v ∷ older) w
  Before-suc = record {
    origin = omega (arith, before.origin);
    rounds = ap suc before.rounds;
    width = all.length_eq ∙ before.width;
    initial = λ e. absurd (omega arith);
    reached =
        λ s h. Reaches-at a b off (v ∷ older) (index_last s) (now_last s h) (moved s h).reaches;
    inside = λ s h. omega (
      arith,
      now_last s h,
      moved-inside a b off d (suc o) older v before s (point s) (moved s h),
    );
    right = now_right;
    below = λ s h beyond.
        let (k, l) =
          moved-below a b off d (suc o) older v before s (point s) (moved s h) (omega arith)
            (omega (arith, now_last s h)) in
        (omega arith, omega (arith, l, now_last s h, now_before s));
    further = λ s h.
        let l =
          moved-further a b off d (suc o) older v before s (point s) (point (suc s))
            (moved s (omega arith)) (moved (suc s) h) (omega arith) in
        (
          omega (arith, l.0, now_last s, now_before s),
          omega (arith, l.1, now_last (suc s) h, now_before s),
        );
    going = λ s h. ap₂ (arrived a b off) (index_last s) (now_last s h) ∙ all.going s h;
  }
