-- ===== src/Merge/Regions/Same.antt =====
-- merge.rs: a script that keeps every line has no regions.
use ephemeral_sandbox.Prelude.{ℕ, ◌+◌, ◌≡◌, refl, none, List, [], ◌∷◌}
use ephemeral_sandbox.Merge.Lines.{Line}
use ephemeral_sandbox.Merge.Diff.{EditOp, diff}
use ephemeral_sandbox.Merge.Diff.Same.{Kept, diff-Kept}
use ephemeral_sandbox.Merge.Regions.{regions_from, flush, regions}

regions_from-Kept : (bi : ℕ) (ops : List EditOp) → Kept ops → regions_from bi none ops ≡ []
unfolding regions_from flush
regions_from-Kept bi [] k = refl
regions_from-Kept bi (op ∷ ops) k = rw (k.0, regions_from) (regions_from-Kept (bi + 1) ops k.1)

pub regions-same : (b : List Line) → regions (diff b b) ≡ []
unfolding regions
regions-same b = regions_from-Kept 0 (diff b b) (diff-Kept b)
