-- ===== src/TaskLog/Lines.antt =====
-- Splitting into lines, piece by piece.
use Prim.Native.Char.{Char, code}
use Prim.Native.String.{String, [], ◌∷◌}
use text.Mathlib.TextLemmas.{nil-append, cons-append}
use containerhub.Prelude.{
  ◌≡◌, ◌≢◌, refl, true, false, List, [], ◌∷◌, ◌++◌, ◌==◌, ◌&&◌, arith, Bool-cases, inl, inr, ap,
}
use containerhub.Prelude.Text.{◌<>◌}
use containerhub.TaskLog.{split_lines, starts_lf, add_char}

starts_lf-append :
    (s t : String) {l : String} {ls : List String} {rest : String}
    → split_lines s ≡ (l ∷ ls, rest)
    → starts_lf (s <> t) ≡ starts_lf s
unfolding split_lines
starts_lf-append [] t e = cc (ap (λ (p : List String × String). p.0) e)
starts_lf-append (c ∷ s) t e = rw cons-append

ends_line : (s : String) → starts_lf s ≡ true → (split_lines s).0 ≢ []
unfolding split_lines add_char
ends_line [] h = cc
ends_line (c ∷ s) h = ground arith

rest_of_no_line_step :
    (c : Char) (s : String) (r : List String × String)
    → (starts_lf s ≡ true → r.0 ≢ [])
    → (r.0 ≡ [] → r.1 ≡ s)
    → (add_char c (starts_lf s) r).0 ≡ []
    → (add_char c (starts_lf s) r).1 ≡ c ∷ s
unfolding add_char
rest_of_no_line_step c s ([], rest) ends same h = ground (arith, same refl)
rest_of_no_line_step c s (l ∷ ls, rest) ends same h = ground arith

rest_of_no_line : (s : String) → (split_lines s).0 ≡ [] → (split_lines s).1 ≡ s
unfolding split_lines
rest_of_no_line [] h = refl
rest_of_no_line (c ∷ s) h =
    rest_of_no_line_step c s (split_lines s) (ends_line s) (rest_of_no_line s) h

-- The lines of a first piece, then those of its rest with the second piece.
abbrev pub continued : List String × String → String → List String × String
continued (lines, rest) t = let (more, last) = split_lines (rest <> t) in (lines ++ more, last)

open_line :
    (c : Char) (s t : String)
    → add_char c (starts_lf s) ([], s) ≡ ([], c ∷ s)
    → add_char c (starts_lf (s <> t)) (split_lines (s <> t))
      ≡ continued (add_char c (starts_lf s) ([], s)) t
unfolding split_lines
open_line c s t e = rw (e, cons-append)

add_char-continued :
    (c : Char) (s t : String) (r : List String × String)
    → split_lines s ≡ r
    → split_lines (s <> t) ≡ continued r t
    → add_char c (starts_lf (s <> t)) (split_lines (s <> t))
      ≡ continued (add_char c (starts_lf s) r) t
unfolding add_char
add_char-continued c s t ([], rest) e ih =
    let same : rest ≡ s = rw e at (rest_of_no_line s) refl in
    elim (Bool-cases (code c == 10)) [
      | inl lf ↦ let no_cr : (code c == 13) ≡ false = ground arith in rw (no_cr, lf, same)
      | inr other ↦ elim (Bool-cases (code c == 13 && starts_lf s)) [
        | inl cr_lf ↦
            let before_lf : starts_lf s ≡ true = ground arith in
            absurd (ends_line s before_lf (rw e))
        | inr kept ↦ rw same (open_line c s t (rw (kept, other)))
      ]
    ]
add_char-continued c s t (l ∷ ls, rest) e ih = rw (starts_lf-append s t e, ih) (ground arith)

-- Text that comes in two pieces splits into the lines of the first, then those of its rest with the
-- second.
pub split_lines-append : (s t : String) → split_lines (s <> t) ≡ continued (split_lines s) t
unfolding split_lines
split_lines-append [] t = rw nil-append
split_lines-append (c ∷ s) t =
    rw cons-append (add_char-continued c s t (split_lines s) refl (split_lines-append s t))
