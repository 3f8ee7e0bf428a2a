-- ===== src/Merge/Lines.antt =====
-- merge.rs: `eligible`, `split_lines`, `join_lines`. A `&[u8]` is a list of numbers, and a line is the
-- slice of its bytes, the newline included.
use ephemeral_sandbox.Prelude.{
  ℕ, ◌*◌, ◌≡◌, refl, ap, sym, ◌∙◌, Bool, true, false, ◌&&◌, not, Option, none, some, List, [], ◌∷◌,
  ◌++◌, leb, ◌==◌, if◌then◌else◌, length, All, Bool-cases, inl, inr, map,
}
use mathlib.Core.List.{append-nil, append_assoc}

abbrev pub Line : Type 0
Line = List ℕ

abbrev pub merge_max_bytes : ℕ
merge_max_bytes = 8 * 1024 * 1024

unfoldable pub contains : ℕ → List ℕ → Bool
contains k [] = false
contains k (b ∷ rest) = elim (b == k) [ true ↦ true | false ↦ contains k rest ]

-- `std::str::from_utf8`: the ranges that the bytes after a leading byte must lie in.
pub continuation : ℕ → Option (List (ℕ × ℕ))
continuation b =
    if leb b 0x7f
    then some []
    else if leb 0xc2 b && leb b 0xdf
    then some ((0x80, 0xbf) ∷ [])
    else if b == 0xe0
    then some ((0xa0, 0xbf) ∷ (0x80, 0xbf) ∷ [])
    else if b == 0xed
    then some ((0x80, 0x9f) ∷ (0x80, 0xbf) ∷ [])
    else if leb 0xe1 b && leb b 0xef
    then some ((0x80, 0xbf) ∷ (0x80, 0xbf) ∷ [])
    else if b == 0xf0
    then some ((0x90, 0xbf) ∷ (0x80, 0xbf) ∷ (0x80, 0xbf) ∷ [])
    else if leb 0xf1 b && leb b 0xf3
    then some ((0x80, 0xbf) ∷ (0x80, 0xbf) ∷ (0x80, 0xbf) ∷ [])
    else if b == 0xf4
    then some ((0x80, 0x8f) ∷ (0x80, 0xbf) ∷ (0x80, 0xbf) ∷ [])
    else none

pub utf8_from : List (ℕ × ℕ) → List ℕ → Bool
utf8_from [] [] = true
utf8_from (_ ∷ _) [] = false
utf8_from [] (b ∷ rest) = elim (continuation b) [
  | none ↦ false
  | some ranges ↦ utf8_from ranges rest
]
utf8_from ((lo, hi) ∷ ranges) (b ∷ rest) = elim (leb lo b && leb b hi) [
  | true ↦ utf8_from ranges rest
  | false ↦ false
]

unfoldable pub eligible : List ℕ → Bool
unfolding contains continuation utf8_from
eligible data' = leb (length data') merge_max_bytes && not (contains 0 data') && utf8_from [] data'

-- The slice from `start` to the end, if it is not empty.
pub last_line : Line → List Line
last_line [] = []
last_line (b ∷ bs) = (b ∷ bs) ∷ []

-- `line` is the slice from `start` up to the byte that comes next.
split_from : Line → List ℕ → List Line
split_from line [] = last_line line
split_from line (b ∷ rest) = elim (b == b'\n') [
  | true ↦ (line ++ b ∷ []) ∷ split_from [] rest
  | false ↦ split_from (line ++ b ∷ []) rest
]

unfoldable pub split_lines : List ℕ → List Line
unfolding last_line split_from
split_lines = split_from []

unfoldable pub join_lines : List Line → List ℕ
join_lines [] = []
join_lines (line ∷ lines) = line ++ join_lines lines

pub join_lines-append : (xs ys : List Line) → join_lines (xs ++ ys) ≡ join_lines xs ++ join_lines ys
unfolding join_lines
join_lines-append [] ys = refl
join_lines-append (x ∷ xs) ys = rw (join_lines-append xs ys, append_assoc)

join-last_line : (line : Line) → join_lines (last_line line) ≡ line
unfolding last_line join_lines
join-last_line [] = refl
join-last_line (b ∷ bs) = append-nil (b ∷ bs)

join-split_from :
    (line : Line) (bytes : List ℕ) → join_lines (split_from line bytes) ≡ line ++ bytes
unfolding split_from join_lines
join-split_from line [] = join-last_line line ∙ sym (append-nil line)
join-split_from line (b ∷ rest) = elim (Bool-cases (b == b'\n')) [
  | inl e ↦
      rw (e, split_from)
        (ap (◌++◌ (line ++ b ∷ [])) (join-split_from [] rest) ∙ append_assoc line (b ∷ []) rest)
  | inr e ↦
      rw (e, split_from) (join-split_from (line ++ b ∷ []) rest ∙ append_assoc line (b ∷ []) rest)
]

-- Joining the lines of a text gives its bytes back, carriage returns and a missing last newline
-- included.
pub join-split : (bytes : List ℕ) → join_lines (split_lines bytes) ≡ bytes
unfolding split_lines
join-split bytes = join-split_from [] bytes

abbrev pub newline_ended : Line → Line
newline_ended body = body ++ b'\n' ∷ []

split_from-append :
    (line body rest : Line)
    → contains b'\n' body ≡ false
    → split_from line (body ++ rest) ≡ split_from (line ++ body) rest
unfolding split_from contains
split_from-append line [] rest h = rw (append-nil line)
split_from-append line (b ∷ body) rest h = elim (Bool-cases (b == b'\n')) [
  | inl e ↦ absurd (true-ne-false (rw (e, contains) at h))
  | inr e ↦
      rw (e, split_from)
        (split_from-append (line ++ b ∷ []) body rest (rw (e, contains) at h)
          ∙ rw (append_assoc line (b ∷ []) body))
]
  where
    true-ne-false : true ≡ false → ⊥
    true-ne-false p = cc

split_from-last :
    (line tail : Line)
    → contains b'\n' tail ≡ false
    → split_from line tail ≡ last_line (line ++ tail)
unfolding split_from
split_from-last line tail h =
    rw (← append-nil tail) (split_from-append line tail [] h ∙ rw (append-nil tail))

-- Splitting the joined lines gives the lines back: lines whose only newline is their last byte,
-- then a last line with no newline, which is dropped if it is empty.
pub split-join :
    (bodies : List Line) (tail : Line)
    → All (λ body. contains b'\n' body ≡ false) bodies
    → contains b'\n' tail ≡ false
    → split_lines (join_lines (map newline_ended bodies ++ last_line tail))
      ≡ map newline_ended bodies ++ last_line tail
unfolding split_lines join_lines
split-join [] tail h k = rw (join-last_line tail) (split_from-last [] tail k)
split-join (body ∷ bodies) tail h k =
    rw (append_assoc body (b'\n' ∷ []) (join_lines (map newline_ended bodies ++ last_line tail))) (
      split_from-append [] body _ h.0
      ∙ ap (◌∷◌ (newline_ended body)) (split-join bodies tail h.1 k))
