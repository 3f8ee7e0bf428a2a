-- ===== src/Merge/Origins.antt =====
-- merge.rs: `Origin`, `LineRange` and `OriginBuilder`. `ranges` has its last range first.
pub mod Expand
use ephemeral_sandbox.Prelude.{
  ℕ, zero, suc, ◌+◌, ◌≡◌, refl, ap, ◌∙◌, Bool, true, false, List, [], ◌∷◌, ◌++◌, arith, ◌==◌,
  if◌then◌else◌, length, replicate, Bool-cases, inl, inr,
}

pub data Origin : Type 0 where
  command : Origin
  active : ℕ → Origin

pub record LineRange : Type 0 where
  pub start : ℕ
  pub len : ℕ

pub record OriginBuilder : Type 0 where
  pub ranges : List (LineRange × Origin)
  pub next_line : ℕ

abbrev pub builder_default : OriginBuilder
builder_default = record { ranges = []; next_line = 0 }

abbrev pub grown : LineRange → ℕ → LineRange
grown range count = record range { len = range.len + count }

new_range : OriginBuilder → ℕ → Origin → List (LineRange × Origin)
new_range bld count origin =
    (record { start = bld.next_line + 1; len = count }, origin) ∷ bld.ranges

-- The ranges after `count` active lines from `first`; the last range grows if it ends there.
extend_active : ℕ → ℕ → OriginBuilder → List (LineRange × Origin) → List (LineRange × Origin)
unfolding new_range
extend_active first count bld [] = new_range bld count (active first)
extend_active first count bld ((range, command) ∷ older) = new_range bld count (active first)
extend_active first count bld ((range, active base) ∷ older) =
    if base + range.len == first
    then (grown range count, active base) ∷ older
    else new_range bld count (active first)

extend_command : ℕ → OriginBuilder → List (LineRange × Origin) → List (LineRange × Origin)
unfolding new_range
extend_command count bld [] = new_range bld count command
extend_command count bld ((range, active base) ∷ older) = new_range bld count command
extend_command count bld ((range, command) ∷ older) = (grown range count, command) ∷ older

unfoldable pub push_active : ℕ → ℕ → OriginBuilder → OriginBuilder
unfolding extend_active
push_active first zero bld = bld
push_active first (suc n) bld = record {
  ranges = extend_active first (suc n) bld bld.ranges;
  next_line = bld.next_line + suc n;
}

unfoldable pub push_command : ℕ → OriginBuilder → OriginBuilder
unfolding extend_command
push_command zero bld = bld
push_command (suc n) bld = record {
  ranges = extend_command (suc n) bld bld.ranges;
  next_line = bld.next_line + suc n;
}
