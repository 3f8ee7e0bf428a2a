-- ===== src/Layers/Changes/Path.antt =====
-- model/mod.rs: `LayerPath::parse`.
use ephemeral_sandbox.Prelude.{
  ℕ, ◌≡◌, refl, sym, ap, ◌∙◌, Bool, true, false, ◌&&◌, ◌||◌, Option, none, some, List, [], ◌∷◌,
  ◌++◌, map, arith, leb, ◌==◌, if◌then◌else◌, All, Text, text, text_eq, Bool-cases, Option-cases,
  inl, inr, subst,
}
use mathlib.Core.List.{reverse, append-nil, append_assoc}
use ephemeral_sandbox.Merge.Lines.{contains}
use ephemeral_sandbox.Layers.Model.{starts_with}

-- `path.replace('\\', "/")`.
unfoldable pub slashed : Text → Text
slashed = map λ c. if c == b'\\' then b'/' else c

-- `char::is_whitespace`.
unfoldable pub is_whitespace : ℕ → Bool
is_whitespace c =
    (leb 9 c && leb c 13)
    || c == 32
    || c == 0x85
    || c == 0xa0
    || c == 0x1680
    || (leb 0x2000 c && leb c 0x200a)
    || c == 0x2028
    || c == 0x2029
    || c == 0x202f
    || c == 0x205f
    || c == 0x3000

unfoldable pub trim_start : Text → Text
unfolding is_whitespace
trim_start [] = []
trim_start (c ∷ cs) = let rest = trim_start cs in if is_whitespace c then rest else c ∷ cs

unfoldable pub trim : Text → Text
unfolding trim_start
trim s = reverse (trim_start (reverse (trim_start s)))

-- `split('/')`; `part` is what is read of the current part.
unfoldable pub parts_from : Text → Text → List Text
parts_from part [] = part ∷ []
parts_from part (c ∷ cs) = elim (c == b'/') [
  | true ↦ part ∷ parts_from [] cs
  | false ↦ parts_from (part ++ c ∷ []) cs
]

-- The loop over the parts; `none` is a part that is `..`.
unfoldable pub kept_parts : List Text → Option (List Text)
unfolding text_eq
kept_parts [] = some []
kept_parts (part ∷ parts) =
    let rest = kept_parts parts in
    if text_eq part [] || text_eq part (text ".")
    then rest
    else if text_eq part (text "..")
    then none
    else elim rest [ none ↦ none | some kept ↦ some (part ∷ kept) ]

-- `parts.join("/")`.
unfoldable pub joined : Text → List Text → Text
joined part [] = part
joined part (next ∷ parts) = part ++ b'/' ∷ joined next parts

unfoldable pub path_of : Option (List Text) → Option Text
unfolding joined
path_of none = none
path_of (some []) = none
path_of (some (part ∷ parts)) = some (joined part parts)

-- `none` is `InvalidPath`.
unfoldable pub parse : Text → Option Text
unfolding slashed trim contains starts_with parts_from kept_parts path_of
parse path =
    let raw = trim (slashed path) in
    if contains 0 raw
    then none
    else if starts_with raw b'/'
    then none
    else path_of (kept_parts (parts_from [] raw))

-- A part of a parsed path: not empty, neither `.` nor `..`, and with no slash.
pub record IsPart (part : Text) : Type 0 where
  pub not_empty : text_eq part [] ≡ false
  pub not_dot : text_eq part (text ".") ≡ false
  pub not_parent : text_eq part (text "..") ≡ false
  pub whole : contains b'/' part ≡ false

contains-snoc :
    (part : Text) (c : ℕ)
    → contains b'/' part ≡ false
    → (c == b'/') ≡ false
    → contains b'/' (part ++ c ∷ []) ≡ false
unfolding contains
contains-snoc [] c h n = rw (n, contains)
contains-snoc (x ∷ part) c h n = elim (Bool-cases (x == b'/')) [
  | inl e ↦ absurd (true-false (rw (e, contains) at h))
  | inr e ↦ rw (e, contains) (contains-snoc part c (rw (e, contains) at h) n)
]
  where
    true-false : true ≡ false → ⊥
    true-false p = cc

parts_from_whole :
    (part s : Text)
    → contains b'/' part ≡ false
    → All (λ p. contains b'/' p ≡ false) (parts_from part s)
unfolding parts_from contains
parts_from_whole part [] h = (h, tt)
parts_from_whole part (c ∷ cs) h = elim (Bool-cases (c == b'/')) [
  | inl e ↦ rw (e, parts_from) ((h, parts_from_whole [] cs refl))
  | inr e ↦ rw (e, parts_from) (parts_from_whole (part ++ c ∷ []) cs (contains-snoc part c h e))
]

kept_parts-IsPart :
    (parts kept : List Text)
    → kept_parts parts ≡ some kept
    → All (λ p. contains b'/' p ≡ false) parts
    → All IsPart kept
unfolding kept_parts
kept_parts-IsPart [] kept e h = subst (λ ps. All IsPart ps) (some-injective [] kept e) tt
  where
    some-injective : (x y : List Text) → some x ≡ some y → x ≡ y
    some-injective x y p = cc
kept_parts-IsPart (part ∷ parts) kept e h =
    elim (Bool-cases (text_eq part [] || text_eq part (text "."))) [
      | inl a ↦ kept_parts-IsPart parts kept (rw (a, kept_parts) at e) h.1
      | inr a ↦ elim (Bool-cases (text_eq part (text ".."))) [
        | inl b ↦ absurd (none-some (rw (a, b, kept_parts) at e))
        | inr b ↦ elim (Option-cases (kept_parts parts)) [
          | inl c ↦ absurd (none-some (rw (a, b, c, kept_parts) at e))
          | inr (rest, c) ↦
              subst (λ ps. All IsPart ps)
                (some-injective (part ∷ rest) kept (rw (a, b, c, kept_parts) at e))
                ((
                  record {
                    not_empty = ground arith;
                    not_dot = ground arith;
                    not_parent = b;
                    whole = h.0;
                  },
                  kept_parts-IsPart parts rest c h.1,
                ))
        ]
      ]
    ]
  where
    none-some : none ≡ some kept → ⊥
    none-some p = cc

    some-injective : (x y : List Text) → some x ≡ some y → x ≡ y
    some-injective x y p = cc

parts_from-append :
    (part p s : Text)
    → contains b'/' p ≡ false
    → parts_from part (p ++ s) ≡ parts_from (part ++ p) s
unfolding parts_from contains
parts_from-append part [] s h = ap (λ q. parts_from q s) (sym (append-nil part))
parts_from-append part (c ∷ p) s h = elim (Bool-cases (c == b'/')) [
  | inl e ↦ absurd (true-false (rw (e, contains) at h))
  | inr e ↦
      rw (e, parts_from)
        (parts_from-append (part ++ c ∷ []) p s (rw (e, contains) at h)
          ∙ ap (λ q. parts_from q s) (append_assoc part (c ∷ []) p))
]
  where
    true-false : true ≡ false → ⊥
    true-false p = cc

parts_from-joined :
    (part : Text) (parts : List Text)
    → All IsPart (part ∷ parts)
    → parts_from [] (joined part parts) ≡ part ∷ parts
unfolding parts_from joined
parts_from-joined part [] h =
    ap (parts_from []) (sym (append-nil part)) ∙ parts_from-append [] part [] h.0.whole
parts_from-joined part (next ∷ parts) h =
    parts_from-append [] part (b'/' ∷ joined next parts) h.0.whole
    ∙ ap (◌∷◌ part) (parts_from-joined next parts h.1)

path_of-parts :
    (kept : Option (List Text)) (path : Text)
    → path_of kept ≡ some path
    → ((parts : List Text) → kept ≡ some parts → All IsPart parts)
    → All IsPart (parts_from [] path)
unfolding path_of
path_of-parts none path e h = cc
path_of-parts (some []) path e h = cc
path_of-parts (some (part ∷ parts)) path e h =
    subst (λ q. All IsPart (parts_from [] q)) (some-injective _ path e)
      (subst (λ ps. All IsPart ps) (sym (parts_from-joined part parts (h (part ∷ parts) refl)))
        (h (part ∷ parts) refl))
  where
    some-injective : (x y : Text) → some x ≡ some y → x ≡ y
    some-injective x y p = cc

-- The parts of a path that is parsed are not empty, neither `.` nor `..`, and hold no slash: the path is
-- relative, and stays below the folder that it is joined to.
pub parse-IsPart : (raw path : Text) → parse raw ≡ some path → All IsPart (parts_from [] path)
unfolding parse contains
parse-IsPart raw path e = elim (Bool-cases (contains 0 (trim (slashed raw)))) [
  | inl a ↦ absurd (none-some (rw (a, parse) at e))
  | inr a ↦ elim (Bool-cases (starts_with (trim (slashed raw)) b'/')) [
    | inl b ↦ absurd (none-some (rw (a, b, parse) at e))
    | inr b ↦
        path_of-parts (kept_parts (parts_from [] (trim (slashed raw)))) path (rw (a, b, parse) at e)
          (λ parts.
            λ k. kept_parts-IsPart _ parts k (parts_from_whole [] (trim (slashed raw)) refl))
  ]
]
  where
    none-some : none ≡ some path → ⊥
    none-some p = cc
