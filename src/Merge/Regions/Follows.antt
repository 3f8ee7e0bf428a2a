-- ===== src/Merge/Regions/Follows.antt =====
-- What an edit script and its regions mean: `Script` for the operations of `diff`, `Follows` for the
-- regions, and `patch`, which puts the replacement lines into the base.
use ephemeral_sandbox.Prelude.{
  ℕ, suc, ◌+◌, ◌-◌, ◌≤◌, ◌<◌, ◌≡◌, refl, ◌∙◌, ap, none, some, List, [], ◌∷◌, ◌++◌, map, arith,
  length, get_or, take, drop, drop-all, drop-get, take-drop_get, count_from, count_from-snoc,
  slice-append, picks, length-append,
}
use native.Mathlib.Numerals.{add-one}
use ephemeral_sandbox.Merge.Lines.{Line}
use ephemeral_sandbox.Merge.Diff.{eq, del, ins, EditOp}
use ephemeral_sandbox.Merge.Regions.{
  Region, flush, opened, deleted, inserted, regions_from, regions,
}

-- From line `p` of the base `b` and line `q` of the target `a`, the operations account for all the
-- lines that are left: an `eq` for two equal lines, a `del` for one of the base, an `ins` for one of
-- the target.
pub data Script (b a : List Line) : ℕ → ℕ → List EditOp → Type 0 where
  end : {p q : ℕ} → p ≡ length b → q ≡ length a → Script b a p q []
  keep :
      {p q : ℕ} {ops : List EditOp}
      → p < length b
      → q < length a
      → get_or b p [] ≡ get_or a q []
      → Script b a (p + 1) (q + 1) ops
      → Script b a p q (record { kind = eq; b = q } ∷ ops)
  cut :
      {p q j : ℕ} {ops : List EditOp}
      → p < length b
      → Script b a (p + 1) q ops
      → Script b a p q (record { kind = del; b = j } ∷ ops)
  add :
      {p q : ℕ} {ops : List EditOp}
      → q < length a
      → Script b a p (q + 1) ops
      → Script b a p q (record { kind = ins; b = q } ∷ ops)

-- A region that starts at or after base line `p`, where target line `q` stands: up to the region the
-- lines agree, and it is replaced by the next lines of the target.
pub record Hunk (b a : List Line) (p q : ℕ) (r : Region) : Type 0 where
  pub after : p ≤ r.b0
  pub ordered : r.b0 ≤ r.b1
  pub within : r.b1 ≤ length b
  pub target_within : q + (r.b0 - p) + length r.repl ≤ length a
  pub agree : take (r.b0 - p) (drop p b) ≡ take (r.b0 - p) (drop q a)
  pub lines : r.repl ≡ count_from (q + (r.b0 - p)) (length r.repl)

-- The next region starts behind line `n`: an unchanged line lies between.
abbrev pub Apart : ℕ → List Region → Type 0
Apart n [] = Unit
Apart n (r ∷ rs) = n < r.b0

abbrev pub Follows : List Line → List Line → ℕ → ℕ → List Region → Type 0
Follows b a p q [] = drop p b ≡ drop q a
Follows b a p q (r ∷ rs) =
    Hunk b a p q r × Apart r.b1 rs × Follows b a r.b1 (q + (r.b0 - p) + length r.repl) rs

-- Lines `p …` of the base with the regions replaced.
unfoldable pub patch : List Line → List Line → ℕ → List Region → List Line
patch b src p [] = drop p b
patch b src p (r ∷ rs) =
    take (r.b0 - p) (drop p b) ++ (map (λ i. get_or src i []) r.repl ++ patch b src r.b1 rs)

Apart-of :
    (b a : List Line) (p q n : ℕ) (rs : List Region) → Follows b a p q rs → n < p → Apart n rs
Apart-of b a p q n [] f h = tt
Apart-of b a p q n (r ∷ rs) f h = let k = f.0.after in omega arith

-- One equal line more in front.
Follows-keep :
    (b a : List Line) (p q : ℕ) (rs : List Region)
    → p < length b
    → q < length a
    → get_or b p [] ≡ get_or a q []
    → Follows b a (p + 1) (q + 1) rs
    → Follows b a p q rs
Follows-keep b a p q [] hp hq e f =
    rw (drop-get p b [] hp, drop-get q a [] hq, e)
      (ap (◌∷◌ (get_or a q [])) (rw (← add-one p, ← add-one q) f))
Follows-keep b a p q (r ∷ rs) hp hq e (h, apart, f) = (
  record {
    after = omega (arith, h.after);
    ordered = h.ordered;
    within = h.within;
    target_within = omega (arith, h.target_within, shift);
    agree =
        rw
          (
            gap,
            take-drop_get (r.b0 - (p + 1)) p b [] hp,
            take-drop_get (r.b0 - (p + 1)) q a [] hq,
            e,
          )
          (ap (◌∷◌ (get_or a q [])) (rw (← add-one p, ← add-one q) h.agree));
    lines = rw (← shift) h.lines;
  },
  apart,
  rw (← shift) f,
)
  where
    gap : r.b0 - p ≡ suc (r.b0 - (p + 1))
    gap = omega (arith, h.after)

    shift : q + 1 + (r.b0 - (p + 1)) ≡ q + (r.b0 - p)
    shift = omega (arith, h.after)

-- The region that is open: it ends at `p`, and its lines end at `q`.
record IsOpen (b a : List Line) (p q q0 : ℕ) (r : Region) : Type 0 where
  ordered : r.b0 ≤ r.b1
  ends : r.b1 ≡ p
  within : p ≤ length b
  target : q ≡ q0 + length r.repl
  target_within : q ≤ length a
  lines : r.repl ≡ count_from q0 (length r.repl)

opened-IsOpen :
    (b a : List Line) (p q : ℕ) → p ≤ length b → q ≤ length a → IsOpen b a p q q (opened p none)
unfolding opened count_from
opened-IsOpen b a p q hp hq = record {
  ordered = omega arith;
  ends = refl;
  within = hp;
  target = omega arith;
  target_within = hq;
  lines = refl;
}

deleted-IsOpen :
    (b a : List Line) (p q q0 : ℕ) (r : Region)
    → p < length b
    → IsOpen b a p q q0 r
    → IsOpen b a (p + 1) q q0 (deleted p (some r))
unfolding deleted opened
deleted-IsOpen b a p q q0 r hp o = record {
  ordered = omega (arith, o.ordered, o.ends);
  ends = refl;
  within = omega arith;
  target = o.target;
  target_within = o.target_within;
  lines = o.lines;
}

inserted-IsOpen :
    (b a : List Line) (p q q0 : ℕ) (r : Region)
    → q < length a
    → IsOpen b a p q q0 r
    → IsOpen b a p (q + 1) q0 (inserted p q (some r))
unfolding inserted opened
inserted-IsOpen b a p q q0 r hq o = record {
  ordered = o.ordered;
  ends = o.ends;
  within = o.within;
  target = omega (arith, o.target, more);
  target_within = omega arith;
  lines = rw more (rw (← count_from-snoc q0 (length r.repl), ← o.target, ← o.lines));
}
  where
    more : length (r.repl ++ q ∷ []) ≡ suc (length r.repl)
    more = omega (arith, length-append r.repl (q ∷ []))

-- The open region in front of regions that follow it.
closed-Follows :
    (b a : List Line) (p q q0 : ℕ) (r : Region) (rs : List Region)
    → IsOpen b a p q q0 r
    → Apart p rs
    → Follows b a p q rs
    → Follows b a r.b0 q0 (r ∷ rs)
closed-Follows b a p q q0 r rs o apart f = (
  record {
    after = omega arith;
    ordered = o.ordered;
    within = omega (arith, o.ends, o.within);
    target_within = omega (arith, o.target, o.target_within);
    agree = rw none_between;
    lines = rw same_start o.lines;
  },
  rw o.ends apart,
  rw (o.ends, same_start, ← o.target) f,
)
  where
    none_between : r.b0 - r.b0 ≡ 0
    none_between = omega arith

    same_start : q0 + (r.b0 - r.b0) ≡ q0
    same_start = omega arith

pub Script-le :
    (b a : List Line) {p q : ℕ} {ops : List EditOp}
    → Script b a p q ops
    → (p ≤ length b) × (q ≤ length a)
Script-le b a (end hp hq) = (omega arith, omega arith)
Script-le b a (keep hp hq e s) = (omega arith, omega arith)
Script-le b a (cut hp s) = let h = Script-le b a s in (omega arith, h.1)
Script-le b a (add hq s) = let h = Script-le b a s in (h.0, omega arith)

mutual
  unfolding regions_from flush deleted inserted opened

  -- With no region open, and with one open.
  closed-lem :
      (b a : List Line) {p q : ℕ} {ops : List EditOp}
      → Script b a p q ops
      → Follows b a p q (regions_from p none ops)
  closed-lem b a (end {p} {q} hp hq) = rw (drop-all p b (omega arith), drop-all q a (omega arith))
  closed-lem b a (keep {p} {q} {ops} hp hq e s) =
      Follows-keep b a p q (regions_from (p + 1) none ops) hp hq e (closed-lem b a s)
  closed-lem b a (cut {p} {q} hp s) =
      open-lem b a q (deleted p none)
        (deleted-IsOpen b a p q q (opened p none) hp
          (opened-IsOpen b a p q (omega arith) (Script-le b a s).1))
        s
  closed-lem b a (add {p} {q} hq s) =
      open-lem b a q (inserted p q none)
        (inserted-IsOpen b a p q q (opened p none) hq
          (opened-IsOpen b a p q (Script-le b a s).0 (omega arith)))
        s

  open-lem :
      (b a : List Line) (q0 : ℕ) (r : Region) {p q : ℕ} {ops : List EditOp}
      → IsOpen b a p q q0 r
      → Script b a p q ops
      → Follows b a r.b0 q0 (regions_from p (some r) ops)
  open-lem b a q0 r o (end {p} {q} hp hq) =
      closed-Follows b a p q q0 r [] o tt
        (rw (drop-all p b (omega arith), drop-all q a (omega arith)))
  open-lem b a q0 r o (keep {p} {q} {ops} hp hq e s) =
      let rest = regions_from (p + 1) none ops in
      let f = closed-lem b a s in
      closed-Follows b a p q q0 r rest o (Apart-of b a (p + 1) (q + 1) p rest f (omega arith))
        (Follows-keep b a p q rest hp hq e f)
  open-lem b a q0 r o (cut {p} {q} hp s) =
      open-lem b a q0 (deleted p (some r)) (deleted-IsOpen b a p q q0 r hp o) s
  open-lem b a q0 r o (add {p} {q} hq s) =
      open-lem b a q0 (inserted p q (some r)) (inserted-IsOpen b a p q q0 r hq o) s

-- The regions of a script are in order, apart from one another and inside the base, and between
-- them the base and the target agree.
pub regions-Follows :
    (b a : List Line) (ops : List EditOp) → Script b a 0 0 ops → Follows b a 0 0 (regions ops)
unfolding regions
regions-Follows b a ops s = closed-lem b a s

-- The replacement lines of a region are the next lines of the target.
pub Hunk-lines :
    (b a : List Line) (p q : ℕ) (r : Region)
    → Hunk b a p q r
    → map (λ i. get_or a i []) r.repl ≡ take (length r.repl) (drop (q + (r.b0 - p)) a)
Hunk-lines b a p q r h =
    ap (map (λ i. get_or a i [])) h.lines
    ∙ picks (length r.repl) (q + (r.b0 - p)) a [] h.target_within

pub patch-Follows :
    (b a : List Line) (p q : ℕ) (rs : List Region) → Follows b a p q rs → patch b a p rs ≡ drop q a
unfolding patch
patch-Follows b a p q [] f = f
patch-Follows b a p q (r ∷ rs) (h, apart, f) =
    rw (Hunk-lines b a p q r h, h.agree, patch-Follows b a r.b1 q2 rs f)
      (rw (slice-append (length r.repl) q1 q2 a refl) (slice-append (r.b0 - p) q q1 a refl))
  where
    q1 : ℕ
    q1 = q + (r.b0 - p)

    q2 : ℕ
    q2 = q1 + length r.repl

-- Putting the replacement lines of the regions into the base gives the target.
pub patch-regions :
    (b a : List Line) (ops : List EditOp) → Script b a 0 0 ops → patch b a 0 (regions ops) ≡ a
patch-regions b a ops s = patch-Follows b a 0 0 (regions ops) (regions-Follows b a ops s)
