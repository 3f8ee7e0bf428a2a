-- ===== src/Layers/Changes/Aggregate.antt =====
-- model/mod.rs: of the changes at one path the last one wins; the bytes of a publish are their sum,
-- up to the largest 64-bit number.
use ephemeral_sandbox.Prelude.{
  ℕ, ◌+◌, ◌≤◌, min, ◌≡◌, refl, ap, ◌∙◌, Option, none, some, List, [], ◌∷◌, arith, Text, text_eq,
  text_eq_iff, if◌then◌else◌,
}
use ephemeral_sandbox.Layers.Changes.{
  LayerChange, change_path, put, lookup, put_all, aggregate_layer_changes, u64_max, change_bytes,
  bytes_from, published_layer_bytes,
}

module _ {A : Type 0} (key : A → Text) where
  lookup-put :
      (k : Text) (a : A) (m : List A)
      → lookup key k (put key a m) ≡ (if text_eq (key a) k then some a else lookup key k m)
  unfolding lookup put
  lookup-put k a [] = ground arith
  lookup-put k a (x ∷ m) = ground (
    arith,
    lookup-put k a m,
    text_eq_iff (key x) (key a),
    text_eq_iff (key x) k,
    text_eq_iff (key a) k,
  )

  -- The last element of a list with a key, or else another one.
  unfoldable pub last_with : Text → List A → Option A → Option A
  last_with k [] other = other
  last_with k (a ∷ as') other = last_with k as' (if text_eq (key a) k then some a else other)

  pub lookup-put_all :
      (k : Text) (as' m : List A)
      → lookup key k (put_all key as' m) ≡ last_with k as' (lookup key k m)
  unfolding put_all last_with
  lookup-put_all k [] m = refl
  lookup-put_all k (a ∷ as') m =
      lookup-put_all k as' (put key a m) ∙ ap (last_with k as') (lookup-put k a m)

-- Of several changes at one path the aggregated changeset has the last one, and none where there is
-- none.
pub lookup-aggregate_layer_changes :
    (path : Text) (changes : List LayerChange)
    → lookup change_path path (aggregate_layer_changes changes)
      ≡ last_with change_path path changes none
unfolding aggregate_layer_changes lookup
lookup-aggregate_layer_changes path changes = lookup-put_all change_path path changes []

-- The sum with no bound.
unfoldable pub exact_bytes : List LayerChange → ℕ
exact_bytes [] = 0
exact_bytes (change ∷ changes) = change_bytes change + exact_bytes changes

bytes_from_exact :
    (total : ℕ) (changes : List LayerChange)
    → total ≤ u64_max
    → bytes_from total changes ≡ min (total + exact_bytes changes) u64_max
unfolding bytes_from exact_bytes
bytes_from_exact total [] h = omega arith
bytes_from_exact total (change ∷ changes) h =
    let ih = bytes_from_exact (min (total + change_bytes change) u64_max) changes (omega arith) in
    omega arith

-- The published bytes are the exact sum, or the largest 64-bit number if the sum is larger.
pub published_layer_bytes_exact :
    (changes : List LayerChange) → published_layer_bytes changes ≡ min (exact_bytes changes) u64_max
unfolding published_layer_bytes
published_layer_bytes_exact changes =
    let h = bytes_from_exact 0 changes (omega arith) in omega arith
