-- ===== src/Merge/Origins/Expand.antt =====
-- What the ranges of the builder mean: the origin of each line, and that the ranges tile the lines.
use ephemeral_sandbox.Prelude.{
  ℕ, zero, suc, ◌+◌, ◌-◌, ◌≤◌, ◌<◌, ◌≡◌, refl, sym, ap, List, [], ◌∷◌, ◌++◌, arith, ◌==◌, length,
  replicate, get_elem?, some, Bool-cases, inl, inr, ==_iff, subst, take, drop, take-drop_get,
  get_elem?-get_or,
}
use native.Mathlib.Numerals.{add-one}
use mathlib.Core.List.{append-nil, append_assoc}
use ephemeral_sandbox.Merge.Lines.{Line}
use ephemeral_sandbox.Merge.Origins.{
  Origin, LineRange, OriginBuilder, command, active, push_active, push_command, extend_active,
  extend_command, grown, new_range,
}

-- Active lines `i`, `i + 1`, …
unfoldable pub actives : ℕ → ℕ → List Origin
actives i zero = []
actives i (suc n) = active i ∷ actives (i + 1) n

unfoldable pub run : Origin → ℕ → List Origin
run command n = replicate n command
run (active i) n = actives i n

-- The origin of each line, from ranges whose last one comes first.
unfoldable pub expand : List (LineRange × Origin) → List Origin
expand [] = []
expand ((range, origin) ∷ older) = expand older ++ run origin range.len

-- The ranges, the last one first, are not empty and cover the lines 1 … n with no gap.
abbrev pub Tiles : ℕ → List (LineRange × Origin) → Type 0
Tiles n [] = n ≡ 0
Tiles n ((range, origin) ∷ older) =
    (0 < range.len)
    × (n ≡ range.start + range.len - 1)
    × (0 < range.start)
    × Tiles (range.start - 1) older

actives-append : (i n k : ℕ) → actives i n ++ actives (i + n) k ≡ actives i (n + k)
unfolding actives
actives-append i zero k =
    let e : i + 0 ≡ i = omega arith in let e' : 0 + k ≡ k = omega arith in rw (e, e')
actives-append i (suc n) k =
    let e : i + suc n ≡ i + 1 + n = omega arith in
    let e' : suc n + k ≡ suc (n + k) = omega arith in
    rw (e, e') (ap (◌∷◌ (active i)) (actives-append (i + 1) n k))

replicate-append :
    (n k : ℕ) → replicate n command ++ replicate k command ≡ replicate (n + k) command
replicate-append zero k = let e : 0 + k ≡ k = omega arith in rw e
replicate-append (suc n) k =
    let e : suc n + k ≡ suc (n + k) = omega arith in rw e (ap (◌∷◌ command) (replicate-append n k))

expand-extend_active :
    (first n : ℕ) (bld : OriginBuilder) (ranges : List (LineRange × Origin))
    → bld.ranges ≡ ranges
    → expand (extend_active first n bld ranges) ≡ expand ranges ++ actives first n
unfolding expand extend_active run
expand-extend_active first n bld [] e = rw e
expand-extend_active first n bld ((range, command) ∷ older) e = rw e
expand-extend_active first n bld ((range, active base) ∷ older) e =
    elim (Bool-cases (base + range.len == first)) [
      | inl t ↦
          let here : base + range.len ≡ first = (==_iff (base + range.len) first).0 t in
          rw (t, extend_active)
            (rw append_assoc
              (ap (◌++◌ (expand older)) (rw (← here) (sym (actives-append base range.len n)))))
      | inr t ↦ rw (t, extend_active) (rw e)
    ]

-- Pushing active lines appends their origins, whether or not the last range grows.
pub expand-push_active :
    (first n : ℕ) (bld : OriginBuilder)
    → expand (push_active first n bld).ranges ≡ expand bld.ranges ++ actives first n
unfolding push_active actives
expand-push_active first zero bld = sym (append-nil (expand bld.ranges))
expand-push_active first (suc n) bld = expand-extend_active first (suc n) bld bld.ranges refl

expand-extend_command :
    (n : ℕ) (bld : OriginBuilder) (ranges : List (LineRange × Origin))
    → bld.ranges ≡ ranges
    → expand (extend_command n bld ranges) ≡ expand ranges ++ replicate n command
unfolding expand extend_command run
expand-extend_command n bld [] e = rw e
expand-extend_command n bld ((range, active base) ∷ older) e = rw e
expand-extend_command n bld ((range, command) ∷ older) e =
    rw append_assoc (ap (◌++◌ (expand older)) (sym (replicate-append range.len n)))

pub expand-push_command :
    (n : ℕ) (bld : OriginBuilder)
    → expand (push_command n bld).ranges ≡ expand bld.ranges ++ replicate n command
unfolding push_command
expand-push_command zero bld = sym (append-nil (expand bld.ranges))
expand-push_command (suc n) bld = expand-extend_command (suc n) bld bld.ranges refl

Tiles-grown :
    (m n : ℕ) (range : LineRange) (origin : Origin) (older : List (LineRange × Origin))
    → Tiles m ((range, origin) ∷ older)
    → Tiles (m + n) ((grown range n, origin) ∷ older)
Tiles-grown m n range origin older (pos, sum, start, rest) = (omega arith, omega arith, start, rest)

Tiles-new_range :
    (n : ℕ) (origin : Origin) (bld : OriginBuilder)
    → 0 < n
    → Tiles bld.next_line bld.ranges
    → Tiles (bld.next_line + n) (new_range bld n origin)
unfolding new_range
Tiles-new_range n origin bld h t =
    let same : bld.next_line + 1 - 1 ≡ bld.next_line = omega arith in
    (h, omega arith, omega arith, subst (λ k. Tiles k bld.ranges) (sym same) t)

Tiles-extend_active :
    (first n : ℕ) (bld : OriginBuilder) (ranges : List (LineRange × Origin))
    → bld.ranges ≡ ranges
    → 0 < n
    → Tiles bld.next_line bld.ranges
    → Tiles (bld.next_line + n) (extend_active first n bld ranges)
unfolding extend_active
Tiles-extend_active first n bld [] e h t = Tiles-new_range n (active first) bld h t
Tiles-extend_active first n bld ((range, command) ∷ older) e h t =
    Tiles-new_range n (active first) bld h t
Tiles-extend_active first n bld ((range, active base) ∷ older) e h t =
    elim (Bool-cases (base + range.len == first)) [
      | inl g ↦
          rw (g, extend_active)
            (Tiles-grown bld.next_line n range (active base) older
              (subst (Tiles bld.next_line) e t))
      | inr g ↦ rw (g, extend_active) (Tiles-new_range n (active first) bld h t)
    ]

Tiles-extend_command :
    (n : ℕ) (bld : OriginBuilder) (ranges : List (LineRange × Origin))
    → bld.ranges ≡ ranges
    → 0 < n
    → Tiles bld.next_line bld.ranges
    → Tiles (bld.next_line + n) (extend_command n bld ranges)
unfolding extend_command
Tiles-extend_command n bld [] e h t = Tiles-new_range n command bld h t
Tiles-extend_command n bld ((range, active base) ∷ older) e h t = Tiles-new_range n command bld h t
Tiles-extend_command n bld ((range, command) ∷ older) e h t =
    Tiles-grown bld.next_line n range command older (subst (Tiles bld.next_line) e t)

-- The builder's ranges tile the lines that it has counted, `n` of them.
pub record IsTiled (n : ℕ) (bld : OriginBuilder) : Type 0 where
  pub counted : bld.next_line ≡ n
  pub tiled : Tiles bld.next_line bld.ranges

-- Where the ranges tile the first `n` lines, they tile the first `n + k` after `k` active lines.
pub push_active-IsTiled :
    (first k n m : ℕ) (bld : OriginBuilder)
    → n + k ≡ m
    → IsTiled n bld
    → IsTiled m (push_active first k bld)
unfolding push_active
push_active-IsTiled first zero n m bld e t = record {
  counted = omega (arith, t.counted);
  tiled = t.tiled;
}
push_active-IsTiled first (suc k) n m bld e t = record {
  counted = omega (arith, t.counted);
  tiled = Tiles-extend_active first (suc k) bld bld.ranges refl (omega arith) t.tiled;
}

pub push_command-IsTiled :
    (k n m : ℕ) (bld : OriginBuilder) → n + k ≡ m → IsTiled n bld → IsTiled m (push_command k bld)
unfolding push_command
push_command-IsTiled zero n m bld e t = record {
  counted = omega (arith, t.counted);
  tiled = t.tiled;
}
push_command-IsTiled (suc k) n m bld e t = record {
  counted = omega (arith, t.counted);
  tiled = Tiles-extend_command (suc k) bld bld.ranges refl (omega arith) t.tiled;
}

-- Line by line, the origin tells where the line comes from: an active line is the line of that
-- index in the active content, and a command line is one of the command's lines.
unfoldable pub Sourced : List Line → List Line → List Line → List Origin → Type 0
Sourced a c [] [] = Unit
Sourced a c [] (_ ∷ _) = ⊥
Sourced a c (_ ∷ _) [] = ⊥
Sourced a c (l ∷ ls) (active i ∷ os) = (get_elem? a i ≡ some l) × Sourced a c ls os
Sourced a c (l ∷ ls) (command ∷ os) = ((j : ℕ) × (get_elem? c j ≡ some l)) × Sourced a c ls os

pub Sourced-append :
    (a c ls ms : List Line) (os ps : List Origin)
    → Sourced a c ls os
    → Sourced a c ms ps
    → Sourced a c (ls ++ ms) (os ++ ps)
unfolding Sourced
Sourced-append a c [] ms [] ps s t = t
Sourced-append a c [] ms (o ∷ os) ps s t = absurd s
Sourced-append a c (l ∷ ls) ms [] ps s t = absurd s
Sourced-append a c (l ∷ ls) ms (active i ∷ os) ps s t = (s.0, Sourced-append a c ls ms os ps s.1 t)
Sourced-append a c (l ∷ ls) ms (command ∷ os) ps s t = (s.0, Sourced-append a c ls ms os ps s.1 t)

-- A slice of the active content has the origins of its lines.
pub Sourced-actives :
    (a c : List Line) (q n : ℕ) → q + n ≤ length a → Sourced a c (take n (drop q a)) (actives q n)
unfolding Sourced actives
Sourced-actives a c q zero h = tt
Sourced-actives a c q (suc n) h = rw (take-drop_get n q a [] (omega arith)) (
  get_elem?-get_or q a [] (omega arith),
  rw (← add-one q) (Sourced-actives a c (q + 1) n (omega arith)),
)

pub Sourced-commands :
    (a c : List Line) (q n : ℕ)
    → q + n ≤ length c
    → Sourced a c (take n (drop q c)) (replicate n command)
unfolding Sourced
Sourced-commands a c q zero h = tt
Sourced-commands a c q (suc n) h = rw (take-drop_get n q c [] (omega arith)) (
  (q, get_elem?-get_or q c [] (omega arith)),
  rw (← add-one q) (Sourced-commands a c (q + 1) n (omega arith)),
)
