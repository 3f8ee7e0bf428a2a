-- ===== src/Layers/Stack/Invariant.antt =====
-- No layer that the active manifest or a live lease names is ever removed. A layer is held if its
-- path is the one that its id gives and its folder is there.
pub mod Collecting
pub mod Publishing
pub mod Leasing
pub mod Squashing
pub mod Building
pub mod Sweeping
pub mod Collected
pub mod Atomic
pub mod Reachable
use ephemeral_sandbox.Prelude.{
  All-append, All-left, All-right, All-map, ℕ, ◌≡◌, refl, ap, sym, ◌∙◌, Bool, true, false, ◌||◌,
  List, [], ◌∷◌, ◌++◌, arith, All, Text, text, text_eq, text_eq_iff, has, dropped, has-dropped,
  erased, inserted, drop, Bool-cases, inl, inr, if◌then◌else◌,
}
use ephemeral_sandbox.Layers.Model.{
  LayerRef, Manifest, layer_path, layer_eq, layer_eq_iff, contains,
}
use ephemeral_sandbox.Layers.Leases.{LeaseRegistry, LeaseRecord, leased_layers}
use ephemeral_sandbox.Layers.Stack.{Stack}

abbrev pub Named : LayerRef → Type 0
Named l = l.path ≡ layer_path l.layer_id

abbrev pub Held : List Text → LayerRef → Type 0
Held dirs l = (l.path ≡ layer_path l.layer_id) × (has l.path dirs ≡ true)

pub record IsSafe (s : Stack) : Type 0 where
  pub active : All (Held s.dirs) s.manifest.layers
  pub leased : All (Held s.dirs) (leased_layers s.leases)
  pub substituted : All (λ r. Named r.s_layer) s.substitutions

pub leased_layers-erased :
    (P : LayerRef → Type 0) (k : Text) (m : LeaseRegistry)
    → All P (leased_layers m)
    → All P (leased_layers (erased k m))
unfolding leased_layers erased
leased_layers-erased P k [] h = tt
leased_layers-erased P k ((j, lease) ∷ m) h = elim (Bool-cases (text_eq j k)) [
  | inl e ↦ rw (e, erased) (leased_layers-erased P k m (All-right P lease.manifest.layers _ h))
  | inr e ↦
      rw (e, erased)
        (All-append P lease.manifest.layers _ (All-left P lease.manifest.layers _ h)
          (leased_layers-erased P k m (All-right P lease.manifest.layers _ h)))
]

pub leased_layers-inserted :
    (P : LayerRef → Type 0) (k : Text) (lease : LeaseRecord) (m : LeaseRegistry)
    → All P lease.manifest.layers
    → All P (leased_layers m)
    → All P (leased_layers (inserted k lease m))
unfolding leased_layers inserted
leased_layers-inserted P k lease m h l =
    All-append P lease.manifest.layers _ h (leased_layers-erased P k m l)

-- One more folder.
pub Held-cons : (d : Text) (dirs : List Text) (l : LayerRef) → Held dirs l → Held (d ∷ dirs) l
unfolding has
Held-cons d dirs l h = (h.0, ground arith)

-- The removal of a folder that is another one.
pub Held-dropped :
    (d : Text) (dirs : List Text) (l : LayerRef)
    → text_eq d l.path ≡ false
    → Held dirs l
    → Held (dropped d dirs) l
Held-dropped d dirs l n h = (h.0, rw (has-dropped d l.path dirs, n) h.1)

pub layer_path-injective : (x y : Text) → layer_path x ≡ layer_path y → x ≡ y
unfolding layer_path
layer_path-injective x y e = ap (drop 7) e

-- Named layers with one path are one layer.
Named-eq : (l m : LayerRef) → Named l → Named m → l.path ≡ m.path → l ≡ m
Named-eq l m h k e = ground (arith, layer_path-injective l.layer_id m.layer_id (sym h ∙ (e ∙ k)))

-- The removal of a layer that the list does not contain.
pub Held-without :
    (m : LayerRef) (dirs : List Text) (ls : List LayerRef)
    → Named m
    → contains ls m ≡ false
    → All (Held dirs) ls
    → All (Held (dropped m.path dirs)) ls
unfolding contains
Held-without m dirs [] n c h = tt
Held-without m dirs (l ∷ ls) n c h = elim (Bool-cases (layer_eq l m)) [
  | inl e ↦ absurd (true-false (rw (e, contains) at c))
  | inr e ↦ (
    Held-dropped m.path dirs l (other e) h.0,
    Held-without m dirs ls n (rw (e, contains) at c) h.1,
  )
]
  where
    true-false : true ≡ false → ⊥
    true-false p = cc

    other : layer_eq l m ≡ false → text_eq m.path l.path ≡ false
    other e = ground (
      arith,
      text_eq_iff m.path l.path,
      layer_eq_iff l m,
      λ (p : l.path ≡ m.path). Named-eq l m h.0.0 n p,
    )
