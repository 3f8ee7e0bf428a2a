-- ===== src/Prelude/Texts.antt =====
-- Texts as lists of code points or bytes, their equality, and maps and sets of them.
use Prim.Native.Nat.{ℕ, zero, suc, ◌+◌, ◌/◌, ◌%◌, ◌-◌}
use Prim.Native.Char.{code}
use Prim.Native.String.{String}
use mathlib.Core.Path.{◌≡◌, refl, ap₂}
use mathlib.Core.Logic.{◌↔◌, inl, inr}
use mathlib.Core.Bool.{Bool, true, false, ◌||◌}
use mathlib.Core.Option.{Option, none, some}
use mathlib.Core.List.{List, [], ◌∷◌, ◌++◌}
use native.Mathlib.Omega.{arith}
use package.ephemeral_sandbox.Prelude.Tests.{ltb, ◌==◌, if◌then◌else◌, Bool-cases, ==_iff}
use package.ephemeral_sandbox.Prelude.Lists.{length, replicate}

abbrev pub Text : Type 0
Text = List ℕ

abbrev pub text : String → Text
text String.[] = []
text (String.◌∷◌ c s) = code c ∷ text s

unfoldable pub text_eq : Text → Text → Bool
text_eq [] [] = true
text_eq [] (_ ∷ _) = false
text_eq (_ ∷ _) [] = false
text_eq (x ∷ xs) (y ∷ ys) = elim (x == y) [ true ↦ text_eq xs ys | false ↦ false ]

pub text_eq_refl : (x : Text) → text_eq x x ≡ true
unfolding text_eq
text_eq_refl [] = refl
text_eq_refl (b ∷ bs) = rw ((==_iff b b).1 refl, text_eq) (text_eq_refl bs)

pub text_eq→eq : (x y : Text) → text_eq x y ≡ true → x ≡ y
unfolding text_eq
text_eq→eq [] [] h = refl
text_eq→eq [] (_ ∷ _) h = cc
text_eq→eq (_ ∷ _) [] h = cc
text_eq→eq (x ∷ xs) (y ∷ ys) h = elim (Bool-cases (x == y)) [
  | inl e ↦ ap₂ ◌∷◌ ((==_iff x y).0 e) (text_eq→eq xs ys (rw (e, text_eq) at h))
  | inr e ↦ absurd (false-true (rw (e, text_eq) at h))
]
  where
    false-true : false ≡ true → ⊥
    false-true p = cc

pub text_eq_iff : (x y : Text) → (text_eq x y ≡ true) ↔ (x ≡ y)
text_eq_iff x y = (text_eq→eq x y, λ e. rw e (text_eq_refl y))

-- The order of texts, by their first difference.
unfoldable pub text_lt : Text → Text → Bool
text_lt [] [] = false
text_lt [] (_ ∷ _) = true
text_lt (_ ∷ _) [] = false
text_lt (x ∷ xs) (y ∷ ys) = let rest = text_lt xs ys in if x == y then rest else ltb x y

pub text_lt_irrefl : (x : Text) → text_lt x x ≡ false
unfolding text_lt
text_lt_irrefl [] = refl
text_lt_irrefl (x ∷ xs) = ground (arith, text_lt_irrefl xs)

pub text_lt_trans : (x y z : Text) → text_lt x y ≡ true → text_lt y z ≡ true → text_lt x z ≡ true
unfolding text_lt
text_lt_trans [] [] z h k = cc
text_lt_trans [] (_ ∷ _) [] h k = cc
text_lt_trans [] (_ ∷ _) (_ ∷ _) h k = refl
text_lt_trans (_ ∷ _) [] z h k = cc
text_lt_trans (_ ∷ _) (_ ∷ _) [] h k = cc
text_lt_trans (x ∷ xs) (y ∷ ys) (z ∷ zs) h k = ground (arith, text_lt_trans xs ys zs)

-- Two texts neither of which is below the other are equal.
pub text_lt_connex : (x y : Text) → text_lt x y ≡ false → text_lt y x ≡ false → x ≡ y
unfolding text_lt
text_lt_connex [] [] h k = refl
text_lt_connex [] (_ ∷ _) h k = cc
text_lt_connex (_ ∷ _) [] h k = cc
text_lt_connex (x ∷ xs) (y ∷ ys) h k = ground (arith, text_lt_connex xs ys)

-- A set of texts, such as the names in a folder.
unfoldable pub has : Text → List Text → Bool
has k [] = false
has k (x ∷ xs) = text_eq x k || has k xs

unfoldable pub dropped : Text → List Text → List Text
dropped k [] = []
dropped k (x ∷ xs) = let rest = dropped k xs in if text_eq x k then rest else x ∷ rest

pub has-dropped :
    (k j : Text) (xs : List Text) → has j (dropped k xs) ≡ (if text_eq k j then false else has j xs)
unfolding has dropped
has-dropped k j [] = ground arith
has-dropped k j (x ∷ xs) =
    ground (arith, has-dropped k j xs, text_eq_iff x k, text_eq_iff x j, text_eq_iff k j)

module _ {ℓ} {V : Type ℓ} where
  unfoldable pub find : Text → List (Text × V) → Option V
  find k [] = none
  find k ((j, v) ∷ m) = if text_eq j k then some v else find k m

  unfoldable pub erased : Text → List (Text × V) → List (Text × V)
  erased k [] = []
  erased k ((j, v) ∷ m) = let rest = erased k m in if text_eq j k then rest else (j, v) ∷ rest

  unfoldable pub inserted : Text → V → List (Text × V) → List (Text × V)
  unfolding erased
  inserted k v m = (k, v) ∷ erased k m

  pub find-erased :
      (k j : Text) (m : List (Text × V))
      → find j (erased k m) ≡ (if text_eq k j then none else find j m)
  unfolding find erased
  find-erased k j [] = ground arith
  find-erased k j ((i, v) ∷ m) =
      ground (arith, find-erased k j m, text_eq_iff i k, text_eq_iff i j, text_eq_iff k j)

  pub find-inserted :
      (k j : Text) (v : V) (m : List (Text × V))
      → find j (inserted k v m) ≡ (if text_eq k j then some v else find j m)
  unfolding find inserted
  find-inserted k j v m = ground (arith, find-erased k j m)

-- The digits of `n` in a base, the last first; fuel `n + 1` is enough for a base above 1.
digits_from : ℕ → ℕ → ℕ → List ℕ → List ℕ
digits_from zero base n acc = acc
digits_from (suc fuel) base n acc =
    let digit = n % base in
    let shown =
      (if digit == 10
        then b'a'
        else if digit == 11
        then b'b'
        else if digit == 12
        then b'c'
        else if digit == 13
        then b'd'
        else if digit == 14
        then b'e'
        else if digit == 15
        then b'f'
        else b'0' + digit) in
    let rest = digits_from fuel base (n / base) (shown ∷ acc) in
    if n / base == 0 then shown ∷ acc else rest

-- `format!("{n:0width$}")` and, with base 16, `{n:0width$x}`.
unfoldable pub padded : ℕ → ℕ → ℕ → Text
unfolding digits_from
padded width base n =
    let shown = digits_from (n + 1) base n [] in replicate (width - length shown) b'0' ++ shown
