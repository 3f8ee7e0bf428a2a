-- ===== src/Merge/Diff.antt =====
-- merge.rs: `diff` and `backtrack`, the greedy edit script of Myers. A diagonal `k` is the index
-- `i = k + off` of the array `v`, so that all indices are natural numbers; a test on a signed value
-- is written with `off` added to both sides. `trace` has its newest array first.
pub mod Equal
pub mod Backward
pub mod Forward
pub mod Points
pub mod Moves
pub mod Search
pub mod Scripts
pub mod Same
use ephemeral_sandbox.Prelude.{
  ℕ, zero, suc, ◌+◌, ◌-◌, ◌*◌, min, ◌≡◌, refl, Bool, true, false, ◌&&◌, ◌||◌, not, Option, none,
  some, List, [], ◌∷◌, ◌++◌, ltb, leb, ◌==◌, if◌then◌else◌, length, get_or, set, drop, replicate,
}
use ephemeral_sandbox.Merge.Lines.{Line}

pub data Kind : Type 0 where
  eq del ins : Kind

-- `b` is an index into the second list for `eq` and `ins`, and 0 for `del`.
pub record EditOp : Type 0 where
  pub kind : Kind
  pub b : ℕ

abbrev pub myers_max_d : ℕ
myers_max_d = 200_000

unfoldable pub bytes_eq : Line → Line → Bool
bytes_eq [] [] = true
bytes_eq [] (_ ∷ _) = false
bytes_eq (_ ∷ _) [] = false
bytes_eq (x ∷ xs) (y ∷ ys) = elim (x == y) [ true ↦ bytes_eq xs ys | false ↦ false ]

pub dels : ℕ → List EditOp
dels n = replicate n (record { kind = del; b = 0 })

-- Insertions of the lines `j`, `j + 1`, …, `n` of them.
pub inss : ℕ → ℕ → List EditOp
inss j zero = []
inss j (suc n) = record { kind = ins; b = j } ∷ inss (j + 1) n

-- How often `while x < n && y < m && a[x] == b[y]` runs, from the rests of `a` at `x` and `b` at `y`.
pub snake : List Line → List Line → ℕ
snake [] bs = 0
snake (l ∷ as') [] = 0
snake (l ∷ as') (r ∷ bs) = elim (bytes_eq l r) [ true ↦ suc (snake as' bs) | false ↦ 0 ]

-- `k == -d || (k != d && v[k - 1] < v[k + 1])`: the step comes from the diagonal above.
pub from_above : ℕ → ℕ → ℕ → List ℕ → Bool
from_above off d i v =
    i + d == off || (not (i == off + d) && ltb (get_or v (i - 1) 0) (get_or v (i + 1) 0))

-- One diagonal of a round: the new `x`.
pub furthest : List Line → List Line → ℕ → ℕ → ℕ → List ℕ → ℕ
unfolding snake from_above
furthest a b off d i v =
    let x = (if from_above off d i v then get_or v (i + 1) 0 else get_or v (i - 1) 0 + 1) in
    x + snake (drop x a) (drop (x + off - i) b)

-- `while k <= d { … k += 2 }`, with the diagonals left counted; the flag is `reached`.
pub round_from : List Line → List Line → ℕ → ℕ → ℕ → ℕ → List ℕ → List ℕ × Bool
unfolding furthest
round_from a b off d zero i v = (v, false)
round_from a b off d (suc left) i v =
    let x = furthest a b off d i v in
    let v' = set v i x in
    let rest = round_from a b off d left (i + 2) v' in
    if leb (length a) x && leb (length b) (x + off - i) then (v', true) else rest

-- `for d in 0..=max`, with the rounds left counted: the trace, if the end was reached.
pub rounds_from :
    List Line → List Line → ℕ → ℕ → ℕ → List ℕ → List (List ℕ) → Option (List (List ℕ))
unfolding round_from
rounds_from a b off zero d v trace = none
rounds_from a b off (suc left) d v trace =
    let (v', reached) = round_from a b off d (d + 1) (off - d) v in
    let rest = rounds_from a b off left (d + 1) v' (v ∷ trace) in
    if reached then some (v ∷ trace) else rest

-- `while x > prev_x && y > prev_y` of the backtrack; the tests are on `prev_x + off`, `y + prev_i`.
pub back_snake : ℕ → ℕ → ℕ → ℕ → ℕ → List EditOp → ℕ × ℕ × List EditOp
back_snake off prev_x prev_i zero y ops = (zero, y, ops)
back_snake off prev_x prev_i (suc x) y ops =
    let rest = back_snake off prev_x prev_i x (y - 1) (record { kind = eq; b = y - 1 } ∷ ops) in
    if ltb prev_x (suc x) && ltb (prev_x + off) (y + prev_i) then rest else (suc x, y, ops)

-- The operation that enters the round, none in round 0.
pub entering : ℕ → ℕ → ℕ → ℕ → List EditOp → List EditOp
entering zero prev_x x y ops = ops
entering (suc d) prev_x x y ops =
    (if x == prev_x then record { kind = ins; b = y - 1 } else record { kind = del; b = 0 }) ∷ ops

-- The script is built from its end, so no reversal is left to do.
pub backtrack_from : ℕ → List (List ℕ) → ℕ → ℕ → List EditOp → List EditOp
unfolding from_above back_snake entering
backtrack_from off [] x y ops = ops
backtrack_from off (v ∷ older) x y ops =
    let d = length older in
    let i = x + off - y in
    let prev_i = (if from_above off d i v then i + 1 else i - 1) in
    let prev_x = get_or v prev_i 0 in
    let (x', y', ops') = back_snake off prev_x prev_i x y ops in
    backtrack_from off older prev_x (prev_x + off - prev_i) (entering d prev_x x' y' ops')

pub search_script : List Line → List Line → List EditOp
unfolding rounds_from backtrack_from dels inss
search_script a b =
    let off = min (length a + length b) myers_max_d in
    elim (rounds_from a b off (off + 1) 0 (replicate (2 * off + 1) 0) []) [
      | none ↦ dels (length a) ++ inss 0 (length b)
      | some trace ↦ backtrack_from off trace (length a) (length b) []
    ]

unfoldable pub diff : List Line → List Line → List EditOp
unfolding search_script
diff [] [] = []
diff [] (r ∷ b) = inss 0 (length (r ∷ b))
diff (l ∷ a) [] = dels (length (l ∷ a))
diff (l ∷ a) (r ∷ b) = search_script (l ∷ a) (r ∷ b)
