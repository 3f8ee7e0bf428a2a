-- ===== src/Layers/View/United.antt =====
-- stack/projection/mod.rs: the lookup in one layer after the other is the lookup in the union of their
-- folders.
use ephemeral_sandbox.Prelude.{
  ℕ, ◌≡◌, refl, sym, ◌∙◌, Bool, true, false, ◌||◌, Bool-cases, inl, inr, Option, none, some, List,
  [], ◌∷◌, arith, All, if◌then◌else◌, Text,
}
use ephemeral_sandbox.Layers.Planner.{MergedEntry, absent}
use ephemeral_sandbox.Layers.View.{
  Node, regular, symlink, directory, whiteout, special, Children, missing, not_a_directory, at,
  Behind, whiteout_name, named, stat, exists, is_kernel_whiteout, is_whiteouted, is_file_or_link,
  blocked_from, lookup_blocked_by_layer, View, shown, Verdict, decided, below, absent_in, entry_of,
  read_layer,
}
use ephemeral_sandbox.Layers.View.Overlay.{
  found_at, hides, is_opaque, united, entry_at, topmost, overlay, IsClear, resumed, reads,
}
use ephemeral_sandbox.Layers.View.Descend.{
  stat_one, whiteouted_one, stat_into, whiteouted_into, blocked_below, stat_missing, read_missing,
  blocked_leaf, read_leaf, passed, entry_into,
}

module _ (behind : Behind) where
  -- The way at one name: nothing is there, a folder that is not hidden, or a leaf that ends it.
  data Way (c : Children) (p q : Text) (ps : List Text) : Type 0 where
    nowhere : named p c ≡ none → Way c p q ps
    through :
        (e : Children)
        → named p c ≡ some (directory e)
        → hides behind p c ≡ false
        → IsClear behind e (q ∷ ps)
        → Way c p q ps
    ended :
        (node : Node)
        → named p c ≡ some node
        → ((r : Text) (path : List Text) → stat behind node (r ∷ path) ≡ not_a_directory)
        → (is_kernel_whiteout behind (at node) || is_file_or_link behind (at node)) ≡ true
        → (entries : (cs : List Children) → united behind p (c ∷ cs) ≡ []) → Way c p q ps

  way : (c : Children) (p q : Text) (ps : List Text) → IsClear behind c (p ∷ q ∷ ps) → Way c p q ps
  unfolding stat is_kernel_whiteout is_file_or_link united
  way c p q ps clear = at_name (named p c) refl clear
    where
      cut : (h : Bool) → (if h then [] else []) ≡ (let cs : List Children = [] in cs)
      cut true = refl
      cut false = refl

      at_name :
          (o : Option Node)
          → named p c ≡ o
          → elim o as (λ _. Type 0) [
            | none ↦ Unit
            | some node ↦ elim node as (λ _. Type 0) [
              | directory e ↦ (hides behind p c ≡ false) × IsClear behind e (q ∷ ps)
              | regular _ _ ↦ Unit
              | whiteout ↦ Unit
              | symlink _ _ ↦ ⊥
              | special ↦ ⊥
            ]
          ]
          → Way c p q ps
      at_name none h k = nowhere h
      at_name (some (directory e)) h k = through e h k.0 k.1
      at_name (some (regular b x)) h k =
          ended (regular b x) h (λ _ _. refl) refl
            (λ cs.
              rw (h, united behind) (cut (exists behind (found_at (named (whiteout_name p) c)))))
      at_name (some whiteout) h k =
          ended whiteout h (λ _ _. refl) refl (λ cs. rw (h, united behind))
      at_name (some (symlink _ _)) h k = absurd k
      at_name (some special) h k = absurd k

  -- A clear way that ends in a file or a whiteout is blocked there.
  blocked_end :
      (c : Children) (p : Text) (ps : List Text)
      → IsClear behind c (p ∷ ps)
      → stat behind (directory c) (p ∷ ps) ≡ not_a_directory
      → lookup_blocked_by_layer behind (directory c) (p ∷ ps) ≡ true
  blocked_end c p [] clear h = absurd (there (named p c) (sym (stat_one behind c p) ∙ h))
    where
      there : (o : Option Node) → found_at o ≡ not_a_directory → ⊥
      there none e = cc
      there (some node) e = cc
  blocked_end c p (q ∷ ps) clear h = elim (way c p q ps clear) [
    | nowhere e ↦ absurd (apart (sym (stat_missing behind c p e (q ∷ ps)) ∙ h))
    | ended node e leaf stops _ ↦ blocked_leaf behind c p node e leaf stops q ps
    | through e into plain rest ↦
        let inner = blocked_end e q ps rest (sym (stat_into behind c e p into (q ∷ ps)) ∙ h) in
        blocked_below behind c e p into q ps plain ∙ rw inner (ground arith)
  ]
    where
      apart : missing ≡ not_a_directory → ⊥
      apart e = cc

  united_nil : (p : Text) → united behind p [] ≡ []
  unfolding united
  united_nil p = refl

  united_nowhere :
      (c : Children) (cs : List Children) (p : Text)
      → named p c ≡ none
      → united behind p (c ∷ cs) ≡ (if hides behind p c then [] else united behind p cs)
  unfolding united
  united_nowhere c cs p e = elim (Bool-cases (hides behind p c)) [
    | inl h ↦ rw h
    | inr h ↦ rw (h, e)
  ]

  united_through :
      (c e : Children) (cs : List Children) (p : Text)
      → named p c ≡ some (directory e)
      → hides behind p c ≡ false
      → united behind p (c ∷ cs) ≡ e ∷ (if is_opaque behind e then [] else united behind p cs)
  unfolding united
  united_through c e cs p into plain = rw (plain, into)

  read_into :
      (max_bytes : ℕ) (c e : Children) (p q : Text) (ps : List Text)
      → named p c ≡ some (directory e)
      → hides behind p c ≡ false
      → IsClear behind e (q ∷ ps)
      → read_layer behind max_bytes (directory c) (p ∷ q ∷ ps)
        ≡ passed behind (is_opaque behind e) (read_layer behind max_bytes (directory e) (q ∷ ps))
  unfolding read_layer passed
  read_into max_bytes c e p q ps into plain rest =
      rw
        (
          whiteouted_into behind c e p into q ps,
          stat_into behind c e p into (q ∷ ps),
          entry_into behind max_bytes c e (p ∷ q ∷ ps) (q ∷ ps) (is_opaque behind e)
              (stat behind (directory e) (q ∷ ps)) (blocked_below behind c e p into q ps plain)
              (blocked_end e q ps rest),
        )
        (split (is_whiteouted behind (directory e) (q ∷ ps))
          (entry_of behind max_bytes (directory e) (q ∷ ps) (stat behind (directory e) (q ∷ ps))))
    where
      split :
          (w : Bool) (v : Verdict MergedEntry)
          → (if w then decided (shown absent) else passed behind (is_opaque behind e) v)
            ≡ passed behind (is_opaque behind e) (if w then decided (shown absent) else v)
      split true v = refl
      split false v = refl

  -- A result that is read from the folders `es`.
  abbrev Continues : ℕ → Text → List Text → View MergedEntry → List Children → Type 0
  Continues max_bytes q ps v es =
      (v ≡ reads behind max_bytes es (q ∷ ps)) × All (λ e. IsClear behind e (q ∷ ps)) es

  over :
      (max_bytes : ℕ) (q : Text) (ps : List Text) (h : Bool) (rest : View MergedEntry)
      (es : List Children)
      → Continues max_bytes q ps rest es
      → Continues max_bytes q ps
          (resumed behind (if h then decided (shown absent) else below) rest)
          (if h then [] else es)
  unfolding reads
  over max_bytes q ps true rest es k = (refl, tt)
  over max_bytes q ps false rest es k = k

  under :
      (max_bytes : ℕ) (q : Text) (ps : List Text) (hidden : Bool) (e : Children)
      (v : Verdict MergedEntry) (rest : View MergedEntry) (es : List Children)
      → read_layer behind max_bytes (directory e) (q ∷ ps) ≡ v
      → IsClear behind e (q ∷ ps)
      → Continues max_bytes q ps rest es
      → Continues max_bytes q ps
          (resumed behind (passed behind hidden v) rest)
          (e ∷ (if hidden then [] else es))
  unfolding reads passed
  under max_bytes q ps true e (decided r) rest es h clear k = (rw h, (clear, tt))
  under max_bytes q ps true e below rest es h clear k = (rw h, (clear, tt))
  under max_bytes q ps false e (decided r) rest es h clear k = (rw h, (clear, k.1))
  under max_bytes q ps false e below rest es h clear k = (rw h k.0, (clear, k.1))

  -- One part of the way: the layers from which the rest of the path is read are the united behind folders.
  reads-united :
      (max_bytes : ℕ) (cs : List Children) (p q : Text) (ps : List Text)
      → All (λ c. IsClear behind c (p ∷ q ∷ ps)) cs
      → (reads behind max_bytes cs (p ∷ q ∷ ps)
          ≡ reads behind max_bytes (united behind p cs) (q ∷ ps))
        × All (λ e. IsClear behind e (q ∷ ps)) (united behind p cs)
  unfolding reads
  reads-united max_bytes [] p q ps clear = rw (united_nil p) (refl, tt)
  reads-united max_bytes (c ∷ cs) p q ps clear =
      let below_it = reads behind max_bytes cs (p ∷ q ∷ ps) in
      let ih = reads-united max_bytes cs p q ps clear.1 in
      elim (way c p q ps clear.0) [
        | nowhere e ↦
            rw (united_nowhere c cs p e, read_missing behind c p e max_bytes q ps)
              (over max_bytes q ps (hides behind p c) below_it (united behind p cs) ih)
        | ended node e leaf stops cut ↦
            rw (cut cs, read_leaf behind c p node e leaf stops max_bytes q ps) (refl, tt)
        | through e into plain rest ↦
            rw (united_through c e cs p into plain, read_into max_bytes c e p q ps into plain rest)
              (under max_bytes q ps (is_opaque behind e) e
                (read_layer behind max_bytes (directory e) (q ∷ ps)) below_it (united behind p cs)
                refl rest ih)
      ]

  -- At the last part.
  last_entry :
      (max_bytes : ℕ) (c : Children) (p : Text) (rest : View MergedEntry) (o : Option Node)
      → is_kernel_whiteout behind (found_at o) ≡ false
      → resumed behind (entry_of behind max_bytes (directory c) (p ∷ []) (found_at o)) rest
        ≡ elim o [ none ↦ rest | some node ↦ entry_at behind max_bytes node ]
  unfolding entry_of absent_in lookup_blocked_by_layer blocked_from resumed entry_at
      is_kernel_whiteout
  last_entry max_bytes c p rest none h = refl
  last_entry max_bytes c p rest (some (regular b x)) h = refl
  last_entry max_bytes c p rest (some (symlink t _)) h = refl
  last_entry max_bytes c p rest (some (directory e)) h = refl
  last_entry max_bytes c p rest (some whiteout) h = absurd (cc)
  last_entry max_bytes c p rest (some special) h = refl

  reads_last :
      (max_bytes : ℕ) (cs : List Children) (p : Text)
      → reads behind max_bytes cs (p ∷ []) ≡ topmost behind max_bytes p cs
  unfolding reads topmost read_layer
  reads_last max_bytes [] p = refl
  reads_last max_bytes (c ∷ cs) p = elim (Bool-cases (hides behind p c)) [
    | inl h ↦ rw (whiteouted_one behind c p, h)
    | inr h ↦
        rw (whiteouted_one behind c p, h, stat_one behind c p, reads_last max_bytes cs p)
          (last_entry max_bytes c p (topmost behind max_bytes p cs) (named p c) (
            left (is_kernel_whiteout behind (found_at (named p c)))
              (exists behind (found_at (named (whiteout_name p) c))) h))
  ]
    where
      left : (k w : Bool) → (k || w) ≡ false → k ≡ false
      left k w h = ground arith

  pub reads-overlay :
      (max_bytes : ℕ) (cs : List Children) (p : Text) (ps : List Text)
      → All (λ c. IsClear behind c (p ∷ ps)) cs
      → reads behind max_bytes cs (p ∷ ps) ≡ overlay behind max_bytes cs (p ∷ ps)
  unfolding overlay
  reads-overlay max_bytes cs p [] clear = reads_last max_bytes cs p
  reads-overlay max_bytes cs p (q ∷ ps) clear =
      let step = reads-united max_bytes cs p q ps clear in
      step.0 ∙ reads-overlay max_bytes (united behind p cs) q ps step.1
