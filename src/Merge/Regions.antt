-- ===== src/Merge/Regions.antt =====
-- merge.rs: `Region` and `regions`, the maximal changed runs of an edit script.
pub mod Follows
pub mod Skip
pub mod Same
use ephemeral_sandbox.Prelude.{ℕ, ◌+◌, ◌≡◌, refl, Option, none, some, List, [], ◌∷◌, ◌++◌}
use ephemeral_sandbox.Merge.Diff.{Kind, eq, del, ins, EditOp}

-- The lines `b0 … b1 - 1` of the base, and the indices of the lines that replace them.
pub record Region : Type 0 where
  pub b0 : ℕ
  pub b1 : ℕ
  pub repl : List ℕ

-- `open.take()`, pushed if there is one.
pub flush : Option Region → List Region → List Region
flush none out = out
flush (some r) out = r ∷ out

-- `open.get_or_insert(…)`.
pub opened : ℕ → Option Region → Region
opened bi none = record { b0 = bi; b1 = bi; repl = [] }
opened bi (some r) = r

pub deleted : ℕ → Option Region → Region
unfolding opened
deleted bi current = record (opened bi current) { b1 = bi + 1 }

pub inserted : ℕ → ℕ → Option Region → Region
unfolding opened
inserted bi j current = record (opened bi current) { repl = (opened bi current).repl ++ j ∷ [] }

pub regions_from : ℕ → Option Region → List EditOp → List Region
unfolding flush deleted inserted
regions_from bi current [] = flush current []
regions_from bi current (op ∷ ops) = elim op.kind [
  | eq ↦ flush current (regions_from (bi + 1) none ops)
  | del ↦ regions_from (bi + 1) (some (deleted bi current)) ops
  | ins ↦ regions_from bi (some (inserted bi op.b current)) ops
]

unfoldable pub regions : List EditOp → List Region
unfolding regions_from
regions = regions_from 0 none
