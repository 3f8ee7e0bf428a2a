-- ===== src/Merge/Diff/Equal.antt =====
-- The test on two lines decides their equality.
use ephemeral_sandbox.Prelude.{
  ◌≡◌, refl, ap₂, true, false, [], ◌∷◌, ◌==◌, Bool-cases, inl, inr, ==_iff,
}
use ephemeral_sandbox.Merge.Lines.{Line}
use ephemeral_sandbox.Merge.Diff.{bytes_eq}

pub bytes_eq_refl : (x : Line) → bytes_eq x x ≡ true
unfolding bytes_eq
bytes_eq_refl [] = refl
bytes_eq_refl (b ∷ bs) = rw ((==_iff b b).1 refl, bytes_eq) (bytes_eq_refl bs)

pub bytes_eq→eq : (x y : Line) → bytes_eq x y ≡ true → x ≡ y
unfolding bytes_eq
bytes_eq→eq [] [] h = refl
bytes_eq→eq [] (_ ∷ _) h = cc
bytes_eq→eq (_ ∷ _) [] h = cc
bytes_eq→eq (x ∷ xs) (y ∷ ys) h = elim (Bool-cases (x == y)) [
  | inl e ↦ ap₂ ◌∷◌ ((==_iff x y).0 e) (bytes_eq→eq xs ys (rw (e, bytes_eq) at h))
  | inr e ↦ absurd (false-true (rw (e, bytes_eq) at h))
]
  where
    false-true : false ≡ true → ⊥
    false-true p = cc
