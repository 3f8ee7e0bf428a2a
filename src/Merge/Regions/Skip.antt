-- ===== src/Merge/Regions/Skip.antt =====
-- The base and the target agree up to the next region.
use ephemeral_sandbox.Prelude.{
  ℕ, ◌+◌, ◌-◌, ◌≤◌, ◌≡◌, ap, List, [], ◌∷◌, arith, length, take, drop, drop-drop, slice-drop,
  slice_shorter, length-drop,
}
use ephemeral_sandbox.Merge.Lines.{Line}
use ephemeral_sandbox.Merge.Regions.{Region}
use ephemeral_sandbox.Merge.Regions.Follows.{Follows}

-- The next region starts at line `n` or behind it.
abbrev pub Behind : ℕ → List Region → Type 0
Behind n [] = Unit
Behind n (r ∷ rs) = n ≤ r.b0

pub Follows-agree :
    (b a : List Line) (p q k : ℕ) (rs : List Region)
    → Follows b a p q rs
    → Behind (p + k) rs
    → p + k ≤ length b
    → q ≤ length a
    → (take k (drop p b) ≡ take k (drop q a)) × (q + k ≤ length a)
Follows-agree b a p q k [] f h w v =
    (ap (take k) f, omega (arith, ap length f, length-drop p b, length-drop q a))
Follows-agree b a p q k (r ∷ rs) (h, _, _) t w v = (
  slice_shorter k (r.b0 - p) (drop p b) (drop q a) (omega (arith, h.after)) h.agree,
  omega (arith, h.target_within, h.after),
)

pub Follows-skip :
    (b a : List Line) (p q k p' q' : ℕ) (rs : List Region)
    → p + k ≡ p'
    → q + k ≡ q'
    → Behind p' rs
    → Follows b a p q rs
    → Follows b a p' q' rs
Follows-skip b a p q k p' q' [] e e' t f = rw (← e, ← e', ← drop-drop k p b, ← drop-drop k q a, f)
Follows-skip b a p q k p' q' (r ∷ rs) e e' t (h, apart, f) = (
  record {
    after = t;
    ordered = h.ordered;
    within = h.within;
    target_within = omega (arith, h.target_within, h.after);
    agree =
        rw (shorter, slice-drop k (r.b0 - p) p p' b e, slice-drop k (r.b0 - p) q q' a e')
          (ap (drop k) h.agree);
    lines = rw place h.lines;
  },
  apart,
  rw place f,
)
  where
    shorter : r.b0 - p' ≡ r.b0 - p - k
    shorter = omega arith

    place : q' + (r.b0 - p') ≡ q + (r.b0 - p)
    place = omega (arith, h.after)
