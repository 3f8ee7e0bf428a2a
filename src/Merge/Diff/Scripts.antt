-- ===== src/Merge/Diff/Scripts.antt =====
-- merge.rs: the script of `diff` accounts for all the lines of both lists.
use ephemeral_sandbox.Prelude.{
  ℕ, zero, suc, ◌+◌, ◌-◌, ◌*◌, ◌≡◌, refl, ap, sym, Bool, Option, none, some, List, [], ◌∷◌, ◌++◌,
  length, get_or, replicate, min, arith, inl, inr, if◌then◌else◌,
}
use native.Mathlib.Numerals.{add-one}
use ephemeral_sandbox.Merge.Lines.{Line}
use ephemeral_sandbox.Merge.Diff.{
  myers_max_d, dels, inss, round_from, rounds_from, backtrack_from, search_script, diff,
}
use ephemeral_sandbox.Merge.Diff.Forward.{Written, Arrives, Ends, round_from-Ends}
use ephemeral_sandbox.Merge.Diff.Points.{Before}
use ephemeral_sandbox.Merge.Diff.Moves.{furthest-Moved}
use ephemeral_sandbox.Merge.Diff.Search.{ends_lem, Before-suc}
use ephemeral_sandbox.Merge.Regions.Follows.{Script, end, cut, add}

inss-Script :
    (a b : List Line) (p q n : ℕ) → p ≡ length a → q + n ≡ length b → Script a b p q (inss q n)
unfolding inss
inss-Script a b p q zero e f = end e (omega arith)
inss-Script a b p q (suc n) e f = add (omega arith) (inss-Script a b p (q + 1) n e (omega arith))

dels-Script :
    (a b : List Line) (p q n : ℕ) → q ≡ length b → p + n ≡ length a → Script a b p q (dels n)
unfolding dels
dels-Script a b p q zero e f = end (omega arith) e
dels-Script a b p q (suc n) e f = cut (omega arith) (dels-Script a b (p + 1) q n e (omega arith))

-- All lines of the first list are deleted, all of the second inserted.
replaced-Script :
    (a b : List Line) (p n : ℕ) → p + n ≡ length a → Script a b p 0 (dels n ++ inss 0 (length b))
unfolding dels
replaced-Script a b p zero e = inss-Script a b p 0 (length b) (omega arith) (omega arith)
replaced-Script a b p (suc n) e = cut (omega arith) (replaced-Script a b (p + 1) n (omega arith))

-- The trace leads back from the lengths.
abbrev Leads : List Line → List Line → ℕ → Option (List (List ℕ)) → Type 0
Leads a b off none = Unit
Leads a b off (some trace) = Script a b 0 0 (backtrack_from off trace (length a) (length b) [])

Arrives-Leads :
    (a b : List Line) (off d o : ℕ) (older : List (List ℕ)) (v : List ℕ)
    → Before a b off d o older v
    → Arrives a b off d (suc d) o v
    → Leads a b off (some (v ∷ older))
Arrives-Leads a b off d o older v before (t, h, e) =
    let (ea, eb) = ends_lem a b off d o older v before t (omega arith) e in
    let reach = (furthest-Moved a b off d o older v t before (omega arith)).reaches [] in
    rw (ea, eb) (reach (end (sym ea) (sym eb)))

-- A round, and what is left of the search after it.
round-Leads :
    (a b : List Line) (off d o : ℕ) (older : List (List ℕ)) (v : List ℕ) (r : List ℕ × Bool)
    (rest : Option (List (List ℕ)))
    → Before a b off d o older v
    → Ends a b off d (suc d) o v r
    → (Written a b off d (suc d) o v r.0 → Leads a b off rest)
    → Leads a b off (if r.1 then some (v ∷ older) else rest)
round-Leads a b off d o older v r rest before (inl (e, there)) go =
    rw e (Arrives-Leads a b off d o older v before there)
round-Leads a b off d o older v r rest before (inr (e, all)) go = rw e (go all)

rounds_from-suc :
    (a b : List Line) (off d o : ℕ) (older : List (List ℕ)) (v : List ℕ)
    → Before a b off d o older v
    → ((w : List ℕ)
        → Written a b off d (suc d) o v w
        → Leads a b off (rounds_from a b off o (suc d) w (v ∷ older)))
    → Leads a b off (rounds_from a b off (suc o) d v older)
unfolding rounds_from
rounds_from-suc a b off d o older v before go =
    rw (index, add-one d, rounds_from)
      (round-Leads a b off d o older v r (rounds_from a b off o (suc d) r.0 (v ∷ older)) before
        (round_from-Ends a b off d (suc d) o v (omega (arith, before.origin, before.width)))
        (go r.0))
  where
    r : List ℕ × Bool
    r = round_from a b off d (suc d) o v

    index : off - d ≡ o
    index = omega (arith, before.origin)

rounds_from-Leads :
    (a b : List Line) (off d o : ℕ) (older : List (List ℕ)) (v : List ℕ)
    → Before a b off d o older v
    → Leads a b off (rounds_from a b off (suc o) d v older)
unfolding rounds_from
rounds_from-Leads a b off d zero older v before =
    rounds_from-suc a b off d 0 older v before (λ w all. tt)
rounds_from-Leads a b off d (suc o) older v before =
    rounds_from-suc a b off d (suc o) older v before (λ w all.
      rounds_from-Leads a b off (suc d) o (v ∷ older) w
        (Before-suc a b off d o older v w before all))

pub get_or-replicate : (n i : ℕ) → get_or {A = ℕ} (replicate n 0) i 0 ≡ 0
get_or-replicate zero i = refl
get_or-replicate (suc n) zero = refl
get_or-replicate (suc n) (suc i) = get_or-replicate n i

length-replicate : (n : ℕ) → length {A = ℕ} (replicate n 0) ≡ n
length-replicate zero = refl
length-replicate (suc n) = ap suc (length-replicate n)

Before-zero : (a b : List Line) (off : ℕ) → Before a b off 0 off [] (replicate (2 * off + 1) 0)
Before-zero a b off = record {
  origin = omega arith;
  rounds = refl;
  width = length-replicate (2 * off + 1);
  initial = λ e. get_or-replicate (2 * off + 1) (off + 1);
  reached = λ s h. absurd (omega arith);
  inside = λ s h. absurd (omega arith);
  right = λ s h. absurd (omega arith);
  below = λ s h. absurd (omega arith);
  further = λ s h. absurd (omega arith);
  going = λ s h. absurd (omega arith);
}

Leads-Script :
    (a b : List Line) (off : ℕ) (found : Option (List (List ℕ)))
    → Leads a b off found
    → Script a b 0 0 (elim found [
      | none ↦ dels (length a) ++ inss 0 (length b)
      | some trace ↦ backtrack_from off trace (length a) (length b) []
    ])
Leads-Script a b off none h = replaced-Script a b 0 (length a) (omega arith)
Leads-Script a b off (some trace) h = h

search_script-Script : (a b : List Line) → Script a b 0 0 (search_script a b)
unfolding search_script
search_script-Script a b =
    Leads-Script a b off (rounds_from a b off (off + 1) 0 (replicate (2 * off + 1) 0) []) (
      rw (add-one off)
        (rounds_from-Leads a b off 0 off [] (replicate (2 * off + 1) 0) (Before-zero a b off)))
  where
    off : ℕ
    off = min (length a + length b) myers_max_d

-- The operations of `diff` account for all the lines of both lists, in order: a line that is kept is
-- the same in both, a line of the first list that is not kept is deleted, and a line of the second
-- that is not kept is inserted. This holds also where the search is given up.
pub diff-Script : (a b : List Line) → Script a b 0 0 (diff a b)
unfolding diff
diff-Script [] [] = end refl refl
diff-Script [] (r ∷ b) = inss-Script [] (r ∷ b) 0 0 (length (r ∷ b)) refl (omega arith)
diff-Script (l ∷ a) [] = dels-Script (l ∷ a) [] 0 0 (length (l ∷ a)) refl (omega arith)
diff-Script (l ∷ a) (r ∷ b) = search_script-Script (l ∷ a) (r ∷ b)
