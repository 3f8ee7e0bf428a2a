-- ===== src/Merge/Diff/Forward.antt =====
-- merge.rs: a round of `diff`. It writes the furthest points of the diagonals `o`, `o + 2`, … from the
-- array as it was before the round, and leaves the diagonals between them.
use ephemeral_sandbox.Prelude.{
  ℕ, zero, suc, ◌+◌, ◌-◌, ◌*◌, ◌≤◌, ◌<◌, ◌≡◌, ◌⊎◌, refl, ap, ap₂, sym, ◌∙◌, Bool, true, false, ◌&&◌,
  List, [], ◌∷◌, leb, length, get_or, set, arith, Bool-cases, inl, inr,
}
use ephemeral_sandbox.Merge.Lines.{Line}
use ephemeral_sandbox.Merge.Diff.{from_above, furthest, round_from}

length-set : (v : List ℕ) (i x : ℕ) → length (set v i x) ≡ length v
length-set [] i x = refl
length-set (y ∷ v) zero x = refl
length-set (y ∷ v) (suc i) x = ap suc (length-set v i x)

get_or-set : (v : List ℕ) (i x : ℕ) → i < length v → get_or (set v i x) i 0 ≡ x
get_or-set [] i x h = absurd (omega arith)
get_or-set (y ∷ v) zero x h = refl
get_or-set (y ∷ v) (suc i) x h = get_or-set v i x (omega arith)

get_or-set_other : (v : List ℕ) (i j x : ℕ) → (i ≡ j → ⊥) → get_or (set v i x) j 0 ≡ get_or v j 0
get_or-set_other [] i j x h = refl
get_or-set_other (y ∷ v) zero zero x h = absurd (h refl)
get_or-set_other (y ∷ v) zero (suc j) x h = refl
get_or-set_other (y ∷ v) (suc i) zero x h = refl
get_or-set_other (y ∷ v) (suc i) (suc j) x h = get_or-set_other v i j x (λ e. h (ap suc e))

-- The end of both lists is reached at `x` of the diagonal `i`.
abbrev pub arrived : List Line → List Line → ℕ → ℕ → ℕ → Bool
arrived a b off i x = leb (length a) x && leb (length b) (x + off - i)

-- What the array `w` is after the diagonals from `i`, `left` of them, of a round on `v`.
pub record Written (a b : List Line) (off d left i : ℕ) (v w : List ℕ) : Type 0 where
  pub length_eq : length w ≡ length v
  pub new : (t : ℕ) → t < left → get_or w (i + 2 * t) 0 ≡ furthest a b off d (i + 2 * t) v
  pub old : (j : ℕ) → ((t : ℕ) → t < left → i + 2 * t ≡ j → ⊥) → get_or w j 0 ≡ get_or v j 0
  pub going :
      (t : ℕ) → t < left → arrived a b off (i + 2 * t) (furthest a b off d (i + 2 * t) v) ≡ false

-- Where the round ends early: at a diagonal whose furthest point is the end of both.
abbrev pub Arrives : List Line → List Line → ℕ → ℕ → ℕ → ℕ → List ℕ → Type 0
Arrives a b off d left i v =
    (t : ℕ) × (t < left) × (arrived a b off (i + 2 * t) (furthest a b off d (i + 2 * t) v) ≡ true)

furthest-same :
    (a b : List Line) (off d i : ℕ) (v w : List ℕ)
    → get_or w (i - 1) 0 ≡ get_or v (i - 1) 0
    → get_or w (i + 1) 0 ≡ get_or v (i + 1) 0
    → furthest a b off d i w ≡ furthest a b off d i v
unfolding furthest from_above
furthest-same a b off d i v w e f = rw (e, f) refl

module _ (a b : List Line) (off d left i : ℕ) (v : List ℕ) where
  -- The array after the diagonal `i`.
  abbrev written : List ℕ
  written = set v i (furthest a b off d i v)

  later :
      (t : ℕ) → furthest a b off d (i + 2 + 2 * t) written ≡ furthest a b off d (i + 2 * suc t) v
  later t = rw (further t) (
      furthest-same a b off d (i + 2 * suc t) v written
        (get_or-set_other v i (i + 2 * suc t - 1) (furthest a b off d i v) (λ e. omega arith))
        (get_or-set_other v i (i + 2 * suc t + 1) (furthest a b off d i v) (λ e. omega arith)))
    where
      further : (t : ℕ) → i + 2 + 2 * t ≡ i + 2 * suc t
      further t = omega arith

  further : (t : ℕ) → i + 2 + 2 * t ≡ i + 2 * suc t
  further t = omega arith

  arrived-later :
      (t : ℕ)
      → arrived a b off (i + 2 + 2 * t) (furthest a b off d (i + 2 + 2 * t) written)
        ≡ arrived a b off (i + 2 * suc t) (furthest a b off d (i + 2 * suc t) v)
  arrived-later t = ap₂ (arrived a b off) (further t) (later t)

  first : i + 2 * 0 ≡ i
  first = omega arith

  Arrives-first :
      arrived a b off i (furthest a b off d i v) ≡ true → Arrives a b off d (suc left) i v
  Arrives-first e = (0, omega arith, rw first e)

  Arrives-later : Arrives a b off d left (i + 2) written → Arrives a b off d (suc left) i v
  Arrives-later (t, h, e) = (suc t, omega arith, sym (arrived-later t) ∙ e)

  new_at :
      (w : List ℕ) (t : ℕ)
      → i < length v
      → Written a b off d left (i + 2) written w
      → t < suc left
      → get_or w (i + 2 * t) 0 ≡ furthest a b off d (i + 2 * t) v
  new_at w zero h rest k =
      rw first (rest.old i (λ t l e. omega arith) ∙ get_or-set v i (furthest a b off d i v) h)
  new_at w (suc t) h rest k =
      ap (λ j. get_or w j 0) (sym (further t)) ∙ rest.new t (omega arith) ∙ later t

  going_at :
      (w : List ℕ) (t : ℕ)
      → arrived a b off i (furthest a b off d i v) ≡ false
      → Written a b off d left (i + 2) written w
      → t < suc left
      → arrived a b off (i + 2 * t) (furthest a b off d (i + 2 * t) v) ≡ false
  going_at w zero goes rest k = rw first goes
  going_at w (suc t) goes rest k = sym (arrived-later t) ∙ rest.going t (omega arith)

  Written-suc :
      (w : List ℕ)
      → i < length v
      → arrived a b off i (furthest a b off d i v) ≡ false
      → Written a b off d left (i + 2) written w
      → Written a b off d (suc left) i v w
  Written-suc w h goes rest = record {
    length_eq = rest.length_eq ∙ length-set v i (furthest a b off d i v);
    new = λ t. new_at w t h rest;
    old = λ j others.
        rest.old j (λ t k e. others (suc t) (omega arith) (sym (further t) ∙ e))
        ∙ get_or-set_other v i j (furthest a b off d i v) (λ e. others 0 (omega arith) (first ∙ e));
    going = λ t. going_at w t goes rest;
  }

-- A round ends early at the ends of the lists, or writes its diagonals.
abbrev pub Ends : List Line → List Line → ℕ → ℕ → ℕ → ℕ → List ℕ → List ℕ × Bool → Type 0
Ends a b off d left i v (w, reached) =
    (reached ≡ true) × Arrives a b off d left i v ⊎ (reached ≡ false) × Written a b off d left i v w

Ends-suc :
    (a b : List Line) (off d left i : ℕ) (v : List ℕ) (r : List ℕ × Bool)
    → i < length v
    → arrived a b off i (furthest a b off d i v) ≡ false
    → Ends a b off d left (i + 2) (written a b off d left i v) r
    → Ends a b off d (suc left) i v r
Ends-suc a b off d left i v r h e (inl (ends, there)) =
    inl (ends, Arrives-later a b off d left i v there)
Ends-suc a b off d left i v (w, reached) h e (inr (goes, all)) =
    inr (goes, Written-suc a b off d left i v w h e all)

pub round_from-Ends :
    (a b : List Line) (off d left i : ℕ) (v : List ℕ)
    → i + 2 * left ≤ length v + 1
    → Ends a b off d left i v (round_from a b off d left i v)
unfolding round_from
round_from-Ends a b off d zero i v h = inr (
  refl,
  record {
    length_eq = refl;
    new = λ t k. absurd (omega arith);
    old = λ j k. refl;
    going = λ t k. absurd (omega arith);
  },
)
round_from-Ends a b off d (suc left) i v h = elim (Bool-cases (arrived a b off i x)) [
  | inl e ↦ rw (e, round_from) (inl (refl, Arrives-first a b off d left i v e))
  | inr e ↦
      rw (e, round_from)
        (Ends-suc a b off d left i v (round_from a b off d left (i + 2) (set v i x)) (omega arith) e
          (round_from-Ends a b off d left (i + 2) (set v i x) (omega (arith, length-set v i x))))
]
  where
    x : ℕ
    x = furthest a b off d i v
