-- ===== src/Layers/Planner/Passed.antt =====
-- stack/publish/resolve.rs: how the validations of a plan pass, with the merged paths that they leave.
use ephemeral_sandbox.Prelude.{
  ℕ, ◌≡◌, refl, sym, ap, ◌∙◌, true, false, ◌||◌, not, Option, none, some, List, [], ◌∷◌, arith, All,
  Text, text_eq, text_eq_iff, Bool-cases, inl, inr, inserted, find, find-inserted, subst,
}
use ephemeral_sandbox.Layers.Model.{Manifest}
use ephemeral_sandbox.Layers.Changes.{lookup}
use ephemeral_sandbox.Layers.Planner.{
  World, Checked, pass, fail, PlanError, ContentFingerprint, is_source, content_fingerprint,
  fingerprint_eq,
}
use ephemeral_sandbox.Layers.Planner.Plan.{SourceValidation, AcceptedChange}
use ephemeral_sandbox.Layers.Planner.Contents.{
  MergedPath, is_file_write, read_command_bytes, merge_path,
}
use ephemeral_sandbox.Layers.Planner.Resolve.{
  accepted_path, still_counts, same_create, settle_moved, validate_sources,
}
use ephemeral_sandbox.Layers.Planner.Expects.{and_then_pass, pass_injective}

-- The last accepted change at the path is a write of a source file, and merges with what the base and
-- the active manifest have there.
pub record MergesAt (w : World) (base active : Manifest) (effective : List AcceptedChange)
    (path : Text) (m : MergedPath) : Type 0 where
  pub accepted : AcceptedChange
  pub command : List ℕ
  pub last : lookup accepted_path path effective ≡ some accepted
  pub routed : is_source accepted.route ≡ true
  pub writes : is_file_write accepted.change ≡ true
  pub reads : read_command_bytes w accepted.change ≡ pass command
  pub merged : merge_path w base active path command ≡ pass (some m)

abbrev pub Present : Text → List (Text × MergedPath) → Type 0
Present path merged = (m : MergedPath) × (find path merged ≡ some m)

abbrev pub Good :
    World → Manifest → Manifest → List AcceptedChange → List (Text × MergedPath) → Type 0
Good w base active effective merged =
    (path : Text) (m : MergedPath)
    → find path merged ≡ some m
    → MergesAt w base active effective path m

-- How a validation has been passed, with the merged paths at the end.
pub data Sorted (w : World) (base active : Manifest) (effective : List AcceptedChange)
    (result : List (Text × MergedPath)) (v : SourceValidation) : Type 0 where
  skipped : still_counts v.provenance effective ≡ false → Sorted w base active effective result v
  same :
      (actual : ContentFingerprint)
      → content_fingerprint w active v.path ≡ pass actual
      → fingerprint_eq actual v.expected ≡ true
      → Sorted w base active effective result v
  twice :
      (actual : ContentFingerprint)
      → content_fingerprint w active v.path ≡ pass actual
      → same_create (lookup accepted_path v.path effective) v.expected actual ≡ true
      → Sorted w base active effective result v
  moved : Present v.path result → Sorted w base active effective result v

pub record Passes (w : World) (base active : Manifest) (effective : List AcceptedChange)
    (merged result : List (Text × MergedPath)) (vs : List SourceValidation) : Type 0 where
  pub good : Good w base active effective result
  pub kept : (path : Text) → Present path merged → Present path result
  pub sorted : All (Sorted w base active effective result) vs

module _ (w : World) (base active : Manifest) (effective : List AcceptedChange) where
  MergesAt-of :
      (v : SourceValidation) (actual : ContentFingerprint) (found : Option AcceptedChange)
      (m : MergedPath)
      → lookup accepted_path v.path effective ≡ found
      → settle_moved w base active v actual found ≡ pass m
      → MergesAt w base active effective v.path m
  unfolding settle_moved
  MergesAt-of v actual none m l h = cc
  MergesAt-of v actual (some accepted) m l h =
      elim (Bool-cases (not (is_source accepted.route) || not (is_file_write accepted.change))) [
        | inl e ↦ absurd (fail-pass _ _ refl (rw (e, settle_moved) at h))
        | inr e ↦
            let (command, c, k) =
              and_then_pass (read_command_bytes w accepted.change) _ m
                (rw (e, settle_moved) at h) in
            let (result, g, r) = and_then_pass (merge_path w base active v.path command) _ m k in
            record {
              accepted = accepted;
              command = command;
              last = l;
              routed = ground arith;
              writes = ground arith;
              reads = c;
              merged = g ∙ ap pass (settled result _ r);
            }
      ]
    where
      fail-pass : (x : PlanError) (r : Checked MergedPath) → r ≡ fail x → r ≡ pass m → ⊥
      fail-pass x r a b = cc

      settled :
          (result : Option MergedPath) (x : PlanError)
          → elim result as (λ _. Checked MergedPath) [ some m' ↦ pass m' | none ↦ fail x ] ≡ pass m
          → result ≡ some m
      settled none x r = cc
      settled (some m') x r = cc

  Good-inserted :
      (path : Text) (m : MergedPath) (merged : List (Text × MergedPath))
      → MergesAt w base active effective path m
      → Good w base active effective merged
      → Good w base active effective (inserted path m merged)
  Good-inserted path m merged at_path good other m' h = elim (Bool-cases (text_eq path other)) [
    | inl e ↦
        let own : path ≡ other = (text_eq_iff path other).0 e in
        let same : m ≡ m' =
          some_injective (rw e at (sym (find-inserted path other m merged) ∙ h)) in
        subst (λ k. MergesAt w base active effective k m') own
          (subst (MergesAt w base active effective path) same at_path)
    | inr e ↦ good other m' (rw e at (sym (find-inserted path other m merged) ∙ h))
  ]
    where
      some_injective : {x y : MergedPath} → some x ≡ some y → x ≡ y
      some_injective p = cc

  Present-inserted :
      (path other : Text) (m : MergedPath) (merged : List (Text × MergedPath))
      → Present other merged
      → Present other (inserted path m merged)
  Present-inserted path other m merged (m', h) = elim (Bool-cases (text_eq path other)) [
    | inl e ↦ (m, find-inserted path other m merged ∙ rw e refl)
    | inr e ↦ (m', find-inserted path other m merged ∙ rw e h)
  ]

  Present-own :
      (path : Text) (m : MergedPath) (merged : List (Text × MergedPath))
      → Present path (inserted path m merged)
  Present-own path m merged =
      (m, find-inserted path path m merged ∙ rw ((text_eq_iff path path).1 refl) refl)

  pub validate_sources-Passes :
      (vs : List SourceValidation) (merged result : List (Text × MergedPath))
      → validate_sources w base active effective merged vs ≡ pass result
      → Good w base active effective merged
      → Passes w base active effective merged result vs
  unfolding validate_sources
  validate_sources-Passes [] merged result h good = record {
    good = subst (Good w base active effective) (pass_injective _ _ h) good;
    kept = λ path. subst (Present path) (pass_injective _ _ h);
    sorted = tt;
  }
  validate_sources-Passes (v ∷ vs) merged result h good =
      elim (Bool-cases (still_counts v.provenance effective)) [
        | inr e ↦
            one (skipped e)
              (validate_sources-Passes vs merged result (rw (e, validate_sources) at h) good)
        | inl e ↦
            let (actual, c, k) =
              and_then_pass (content_fingerprint w active v.path) _ result
                (rw (e, validate_sources) at h) in
            elim (Bool-cases (fingerprint_eq actual v.expected)) [
              | inl q ↦
                  one (same actual c q) (validate_sources-Passes vs merged result (rw q at k) good)
              | inr q ↦
                  elim (Bool-cases
                    (same_create (lookup accepted_path v.path effective) v.expected actual)) [
                      | inl t ↦
                          one (twice actual c t)
                            (validate_sources-Passes vs merged result (rw (q, t) at k) good)
                      | inr t ↦
                          let (m, g, n) =
                            and_then_pass
                              (settle_moved w base active v actual
                                (lookup accepted_path v.path effective))
                              _ result (rw (q, t) at k) in
                          put m (
                            validate_sources-Passes vs (inserted v.path m merged) result n (
                              Good-inserted v.path m merged (MergesAt-of v actual _ m refl g) good))
                    ]
            ]
      ]
    where
      one :
          Sorted w base active effective result v
          → Passes w base active effective merged result vs
          → Passes w base active effective merged result (v ∷ vs)
      one s p = record { good = p.good; kept = p.kept; sorted = (s, p.sorted) }

      put :
          (m : MergedPath)
          → Passes w base active effective (inserted v.path m merged) result vs
          → Passes w base active effective merged result (v ∷ vs)
      put m p = record {
        good = p.good;
        kept = λ path h. p.kept path (Present-inserted v.path path m merged h);
        sorted = (moved (p.kept v.path (Present-own v.path m merged)), p.sorted);
      }
