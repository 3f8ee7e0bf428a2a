-- ===== src/Layers/View/Descend.antt =====
-- stack/projection/mod.rs: what the lookup of a path in one layer makes of its first part.
use ephemeral_sandbox.Prelude.{
  ℕ, ◌≡◌, refl, ◌∙◌, Bool, true, false, ◌||◌, Option, none, some, List, [], ◌∷◌, ◌++◌, arith,
  if◌then◌else◌, Text,
}
use ephemeral_sandbox.Layers.Planner.{MergedEntry, absent}
use ephemeral_sandbox.Layers.View.{
  Node, regular, symlink, directory, whiteout, special, Children, Found, missing, not_a_directory,
  refused, at, Behind, opaque_marker, whiteout_name, named, whiteout_path, stat, exists,
  is_kernel_whiteout, is_whiteouted, is_file_or_link, blocked_from, lookup_blocked_by_layer, shown,
  Verdict, decided, below, absent_in, entry_of, read_layer,
}
use ephemeral_sandbox.Layers.View.Overlay.{found_at, hides, is_opaque}

module _ (behind : Behind) where
  pub stat_one :
      (c : Children) (p : Text) → stat behind (directory c) (p ∷ []) ≡ found_at (named p c)
  unfolding stat
  stat_one c p = same (named p c)
    where
      same :
          (o : Option Node)
          → elim o as (λ _. Found) [ none ↦ missing | some node ↦ stat behind node [] ] ≡ found_at o
      same none = refl
      same (some node) = refl

  pub whiteouted_one :
      (c : Children) (p : Text) → is_whiteouted behind (directory c) (p ∷ []) ≡ hides behind p c
  unfolding is_whiteouted whiteout_path
  whiteouted_one c p = rw (stat_one c p, stat_one c (whiteout_name p))

  module _ (c e : Children) (p : Text) (into : named p c ≡ some (directory e)) where
    pub stat_into :
        (path : List Text) → stat behind (directory c) (p ∷ path) ≡ stat behind (directory e) path
    unfolding stat
    stat_into path = rw (into, stat)

    pub whiteouted_into :
        (q : Text) (ps : List Text)
        → is_whiteouted behind (directory c) (p ∷ q ∷ ps)
          ≡ is_whiteouted behind (directory e) (q ∷ ps)
    unfolding is_whiteouted whiteout_path
    whiteouted_into q ps = rw (stat_into (q ∷ ps), stat_into (whiteout_path (q ∷ ps)))

    -- A path that is the name and a further path with at least one part.
    pub ancestor_into :
        (before : List Text) (x : Text)
        → (is_whiteouted behind (directory c) ((p ∷ before) ++ x ∷ [])
            ≡ is_whiteouted behind (directory e) (before ++ x ∷ []))
          × (stat behind (directory c) ((p ∷ before) ++ x ∷ [])
              ≡ stat behind (directory e) (before ++ x ∷ []))
    ancestor_into [] x = (whiteouted_into x [], stat_into (x ∷ []))
    ancestor_into (b ∷ before) x =
        (whiteouted_into b (before ++ x ∷ []), stat_into (b ∷ before ++ x ∷ []))

    pub blocked_into :
        (before rest : List Text)
        → blocked_from behind (directory c) (p ∷ before) rest
          ≡ blocked_from behind (directory e) before rest
    unfolding blocked_from
    blocked_into before [] = refl
    blocked_into before (x ∷ []) = refl
    blocked_into before (x ∷ y ∷ rest) =
        let (w, s) = ancestor_into before x in
        let marker = stat_into ((before ++ x ∷ []) ++ opaque_marker ∷ []) in
        rw (w, s, marker, blocked_into (before ++ x ∷ []) (y ∷ rest))

    pub blocked_below :
        (q : Text) (ps : List Text)
        → hides behind p c ≡ false
        → lookup_blocked_by_layer behind (directory c) (p ∷ q ∷ ps)
          ≡ (is_opaque behind e || lookup_blocked_by_layer behind (directory e) (q ∷ ps))
    unfolding lookup_blocked_by_layer blocked_from is_file_or_link
    blocked_below q ps plain =
        let here : stat behind (directory c) (p ∷ []) ≡ at (directory e) = stat_one c p ∙ rw into in
        let marker = stat_into (opaque_marker ∷ []) ∙ stat_one e opaque_marker in
        rw (whiteouted_one c p, plain, here, marker, blocked_into [] (q ∷ ps))

  module _ (c : Children) (p : Text) (nothing : named p c ≡ none) where
    pub stat_missing : (path : List Text) → stat behind (directory c) (p ∷ path) ≡ missing
    unfolding stat
    stat_missing path = rw (nothing, stat)

    pub whiteouted_missing :
        (q : Text) (ps : List Text) → is_whiteouted behind (directory c) (p ∷ q ∷ ps) ≡ false
    unfolding is_whiteouted whiteout_path is_kernel_whiteout exists
    whiteouted_missing q ps = rw (stat_missing (q ∷ ps), stat_missing (whiteout_path (q ∷ ps)))

    pub ancestor_missing :
        (before : List Text) (x : Text)
        → is_whiteouted behind (directory c) ((p ∷ before) ++ x ∷ []) ≡ false
    ancestor_missing [] x = whiteouted_missing x []
    ancestor_missing (b ∷ before) x = whiteouted_missing b (before ++ x ∷ [])

    pub blocked_missing :
        (before rest : List Text) → blocked_from behind (directory c) (p ∷ before) rest ≡ false
    unfolding blocked_from is_file_or_link exists
    blocked_missing before [] = refl
    blocked_missing before (x ∷ []) = refl
    blocked_missing before (x ∷ y ∷ rest) = rw (
      ancestor_missing before x,
      stat_missing (before ++ x ∷ []),
      stat_missing ((before ++ x ∷ []) ++ opaque_marker ∷ []),
      blocked_missing (before ++ x ∷ []) (y ∷ rest),
    )

    -- A layer without the name passes, or hides behind all below.
    pub read_missing :
        (max_bytes : ℕ) (q : Text) (ps : List Text)
        → read_layer behind max_bytes (directory c) (p ∷ q ∷ ps)
          ≡ (if hides behind p c then decided (shown absent) else below)
    unfolding read_layer entry_of absent_in lookup_blocked_by_layer blocked_from is_file_or_link
        exists
    read_missing max_bytes q ps =
        rw
          (
            whiteouted_missing q ps,
            stat_missing (q ∷ ps),
            whiteouted_one c p,
            stat_missing [],
            stat_missing (opaque_marker ∷ []),
            blocked_missing [] (q ∷ ps),
          )
          (shut (exists behind (found_at (named (whiteout_name p) c))))
      where
        shut :
            (h : Bool)
            → (if h || false || false || false then decided (shown absent) else below)
              ≡ (let v : Verdict MergedEntry = if h then decided (shown absent) else below in v)
        shut true = refl
        shut false = refl

  -- A leaf in the place of a folder on the way.
  module _ (c : Children) (p : Text) (node : Node) (here : named p c ≡ some node)
      (leaf : (r : Text) (path : List Text) → stat behind node (r ∷ path) ≡ not_a_directory)
      (stops : (is_kernel_whiteout behind (at node) || is_file_or_link behind (at node))
        ≡ true) where
    pub stat_leaf :
        (r : Text) (path : List Text) → stat behind (directory c) (p ∷ r ∷ path) ≡ not_a_directory
    unfolding stat
    stat_leaf r path = rw (here, stat) (leaf r path)

    pub whiteouted_leaf :
        (q : Text) (ps : List Text) → is_whiteouted behind (directory c) (p ∷ q ∷ ps) ≡ false
    unfolding is_whiteouted whiteout_path is_kernel_whiteout exists
    whiteouted_leaf q [] = rw (stat_leaf q [], stat_leaf (whiteout_name q) [])
    whiteouted_leaf q (r ∷ ps) = rw (stat_leaf q (r ∷ ps), stat_leaf q (whiteout_path (r ∷ ps)))

    pub blocked_leaf :
        (q : Text) (ps : List Text)
        → lookup_blocked_by_layer behind (directory c) (p ∷ q ∷ ps) ≡ true
    unfolding lookup_blocked_by_layer blocked_from
    blocked_leaf q ps =
        rw (whiteouted_one c p, stat_one c p, here)
          (either (is_kernel_whiteout behind (at node))
            (exists behind (found_at (named (whiteout_name p) c)))
            (is_file_or_link behind (at node))
            (exists behind (stat behind (directory c) (p ∷ opaque_marker ∷ [])))
            (blocked_from behind (directory c) (p ∷ []) (q ∷ ps)) stops)
      where
        either : (k w f r t : Bool) → (k || f) ≡ true → (k || w || f || r || t) ≡ true
        either k w f r t h = ground arith

    pub read_leaf :
        (max_bytes : ℕ) (q : Text) (ps : List Text)
        → read_layer behind max_bytes (directory c) (p ∷ q ∷ ps) ≡ decided (shown absent)
    unfolding read_layer entry_of absent_in
    read_leaf max_bytes q ps = rw (whiteouted_leaf q ps, stat_leaf q ps, blocked_leaf q ps)

  -- What a folder on the way makes of the verdict below it.
  unfoldable pub passed : Bool → Verdict MergedEntry → Verdict MergedEntry
  passed hidden (decided result) = decided result
  passed hidden below = if hidden then decided (shown absent) else below

  pub entry_into :
      (max_bytes : ℕ) (c e : Children) (path path' : List Text) (hidden : Bool) (f : Found)
      → lookup_blocked_by_layer behind (directory c) path
        ≡ (hidden || lookup_blocked_by_layer behind (directory e) path')
      → (f ≡ not_a_directory → lookup_blocked_by_layer behind (directory e) path' ≡ true)
      → entry_of behind max_bytes (directory c) path f
        ≡ passed hidden (entry_of behind max_bytes (directory e) path' f)
  unfolding entry_of absent_in passed
  entry_into max_bytes c e path path' hidden (at (regular _ _)) same ends = refl
  entry_into max_bytes c e path path' hidden (at (symlink _ _)) same ends = refl
  entry_into max_bytes c e path path' hidden (at (directory _)) same ends = refl
  entry_into max_bytes c e path path' hidden (at whiteout) same ends = refl
  entry_into max_bytes c e path path' hidden (at special) same ends = refl
  entry_into max_bytes c e path path' hidden refused same ends = refl
  entry_into max_bytes c e path path' hidden missing same ends = rw same (ground arith)
  entry_into max_bytes c e path path' hidden not_a_directory same ends =
      let b = ends refl in rw (same, b) (ground arith)
