-- ===== src/Prelude/Slices.antt =====
-- Laws of `take`, `drop` and indexing: the slices of the source.
use Prim.Native.Nat.{ℕ, zero, suc, ◌+◌, ◌-◌, ◌≤◌, ◌<◌}
use mathlib.Core.Path.{◌≡◌, refl, ap, sym}
use mathlib.Core.List.{List, [], ◌∷◌, ◌++◌, map}
use mathlib.Core.Option.{some}
use native.Mathlib.Omega.{arith}
use native.Mathlib.Numerals.{add-one}
use package.ephemeral_sandbox.Prelude.Lists.{length, get_or, get_elem?, take, drop, drop-nil}

-- `n`, `n + 1`, …, of the given length.
unfoldable pub count_from : ℕ → ℕ → List ℕ
count_from i zero = []
count_from i (suc n) = i ∷ count_from (i + 1) n

pub length-count_from : (i n : ℕ) → length (count_from i n) ≡ n
unfolding count_from
length-count_from i zero = refl
length-count_from i (suc n) = ap suc (length-count_from (i + 1) n)

pub count_from-snoc : (i n : ℕ) → count_from i n ++ (i + n) ∷ [] ≡ count_from i (suc n)
unfolding count_from
count_from-snoc i zero = let e : i + 0 ≡ i = omega arith in rw e
count_from-snoc i (suc n) =
    let e : i + suc n ≡ i + 1 + n = omega arith in rw e (ap (◌∷◌ i) (count_from-snoc (i + 1) n))

pub count_from-append : (i n k : ℕ) → count_from i n ++ count_from (i + n) k ≡ count_from i (n + k)
unfolding count_from
count_from-append i zero k =
    let e : i + 0 ≡ i = omega arith in let e' : 0 + k ≡ k = omega arith in rw (e, e')
count_from-append i (suc n) k =
    let e : i + suc n ≡ i + 1 + n = omega arith in
    let e' : suc n + k ≡ suc (n + k) = omega arith in
    rw (e, e') (ap (◌∷◌ i) (count_from-append (i + 1) n k))

take-nil {ℓ} : {A : Type ℓ} (n : ℕ) → take {A = A} n [] ≡ []
take-nil zero = refl
take-nil (suc n) = refl

module _ {ℓ} {A : Type ℓ} where
  pub drop-get :
      (p : ℕ) (xs : List A) (d : A) → p < length xs → drop p xs ≡ get_or xs p d ∷ drop (suc p) xs
  drop-get p [] d h = absurd (omega arith)
  drop-get zero (x ∷ xs) d h = refl
  drop-get (suc p) (x ∷ xs) d h = drop-get p xs d (omega arith)

  pub get_elem?-get_or :
      (p : ℕ) (xs : List A) (d : A) → p < length xs → get_elem? xs p ≡ some (get_or xs p d)
  get_elem?-get_or p [] d h = absurd (omega arith)
  get_elem?-get_or zero (x ∷ xs) d h = refl
  get_elem?-get_or (suc p) (x ∷ xs) d h = get_elem?-get_or p xs d (omega arith)

  pub drop-all : (p : ℕ) (xs : List A) → length xs ≤ p → drop p xs ≡ []
  drop-all p [] h = drop-nil p
  drop-all zero (x ∷ xs) h = absurd (omega arith)
  drop-all (suc p) (x ∷ xs) h = drop-all p xs (omega arith)

  pub drop-drop : (n p : ℕ) (xs : List A) → drop n (drop p xs) ≡ drop (p + n) xs
  drop-drop n zero xs = let e : 0 + n ≡ n = omega arith in rw e
  drop-drop n (suc p) [] = rw (drop-nil n, drop-nil (suc p + n))
  drop-drop n (suc p) (x ∷ xs) =
      let e : suc p + n ≡ suc (p + n) = omega arith in rw e (drop-drop n p xs)

  take-drop : (n : ℕ) (xs : List A) → take n xs ++ drop n xs ≡ xs
  take-drop zero xs = refl
  take-drop (suc n) [] = refl
  take-drop (suc n) (x ∷ xs) = ap (◌∷◌ x) (take-drop n xs)

  -- A slice and what follows it.
  pub slice-append :
      (n p q : ℕ) (xs : List A) → p + n ≡ q → take n (drop p xs) ++ drop q xs ≡ drop p xs
  slice-append n p q xs e = rw (← e, ← drop-drop n p xs) (take-drop n (drop p xs))

  pub length-slice : (n p : ℕ) (xs : List A) → p + n ≤ length xs → length (take n (drop p xs)) ≡ n
  length-slice zero p xs h = refl
  length-slice (suc n) p [] h = absurd (omega arith)
  length-slice (suc n) zero (x ∷ xs) h = ap suc (length-slice n 0 xs (omega arith))
  length-slice (suc n) (suc p) (x ∷ xs) h = length-slice (suc n) p xs (omega arith)

  pub take-drop_get :
      (n p : ℕ) (xs : List A) (d : A)
      → p < length xs
      → take (suc n) (drop p xs) ≡ get_or xs p d ∷ take n (drop (suc p) xs)
  take-drop_get n p xs d h = rw (drop-get p xs d h)

  pub picks :
      (n q : ℕ) (xs : List A) (d : A)
      → q + n ≤ length xs
      → map (λ i. get_or xs i d) (count_from q n) ≡ take n (drop q xs)
  unfolding count_from
  picks zero q xs d h = refl
  picks (suc n) q xs d h =
      rw (take-drop_get n q xs d (omega arith))
        (ap (◌∷◌ (get_or xs q d)) (rw (← add-one q) (picks n (q + 1) xs d (omega arith))))

  pub take-all : (n : ℕ) (xs : List A) → length xs ≤ n → take n xs ≡ xs
  take-all zero [] h = refl
  take-all zero (x ∷ xs) h = absurd (omega arith)
  take-all (suc n) [] h = refl
  take-all (suc n) (x ∷ xs) h = ap (◌∷◌ x) (take-all n xs (omega arith))

  drop-take : (k n : ℕ) (xs : List A) → drop k (take n xs) ≡ take (n - k) (drop k xs)
  drop-take zero n xs = let e : n - 0 ≡ n = omega arith in rw e
  drop-take (suc k) zero xs = let e : 0 - suc k ≡ 0 = omega arith in rw e
  drop-take (suc k) (suc n) [] = sym (take-nil (suc n - suc k))
  drop-take (suc k) (suc n) (x ∷ xs) =
      let e : suc n - suc k ≡ n - k = omega arith in rw e (drop-take k n xs)

  -- The end of a slice.
  pub slice-drop :
      (k n p q : ℕ) (xs : List A)
      → p + k ≡ q
      → take (n - k) (drop q xs) ≡ drop k (take n (drop p xs))
  slice-drop k n p q xs e = rw (drop-take k n (drop p xs), drop-drop k p xs, e)

pub length-map {ℓ κ} :
    {A : Type ℓ} {B : Type κ} (f : A → B) (xs : List A) → length (map f xs) ≡ length xs
length-map f [] = refl
length-map f (x ∷ xs) = ap suc (length-map f xs)

take-take {ℓ} : {A : Type ℓ} (k n : ℕ) (xs : List A) → k ≤ n → take k (take n xs) ≡ take k xs
take-take zero n xs h = refl
take-take (suc k) zero xs h = absurd (omega arith)
take-take (suc k) (suc n) [] h = refl
take-take (suc k) (suc n) (x ∷ xs) h = ap (◌∷◌ x) (take-take k n xs (omega arith))

-- A shorter slice of the same place, where longer ones agree.
pub slice_shorter {ℓ} :
    {A : Type ℓ} (k n : ℕ) (xs ys : List A) → k ≤ n → take n xs ≡ take n ys → take k xs ≡ take k ys
slice_shorter k n xs ys h e = rw (← take-take k n xs h, ← take-take k n ys h, e)
