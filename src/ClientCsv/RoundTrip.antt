-- ===== src/ClientCsv/RoundTrip.antt =====
-- clientCsvExport.ts: a reader of CSV gets the cells of an exported table back.
use Prim.Native.String.{String, [], ◌∷◌}
use Prim.Native.Char.{Char, code}
use text.Mathlib.TextLemmas.{nil-append, cons-append, append_assoc, append-nil}
use containerhub.Prelude.{
  ℕ, ◌≡◌, refl, sym, ap, ◌∙◌, true, false, List, [], ◌∷◌, map, is_nil, All, ◌==◌, arith,
}
use containerhub.Prelude.Text.{◌<>◌, has, includes, strip_prefix, join}
use containerhub.ClientCsv.Reader.{
  Rows, push, next_cell, next_row, prefix, Ends, read, read_file, quote-append, start, plain,
}
use containerhub.ClientCsv.{safe, cell_text, lines, table}

-- The cells of a line in front of what is read behind it.
abbrev with_row : List String → Rows → Rows
with_row [] rows = rows
with_row (cell ∷ []) rows = prefix cell rows
with_row (cell ∷ d ∷ ds) rows = prefix cell (next_cell (with_row (d ∷ ds) rows))

prefix-blank :
    (s : String) (cells : List String) (rows : Rows)
    → prefix s (([] ∷ cells) ∷ rows) ≡ (s ∷ cells) ∷ rows
prefix-blank [] cells rows = refl
prefix-blank (c ∷ s) cells rows = ap (push c) (prefix-blank s cells rows)

with_row-blank :
    (cells : List String) (rows : Rows)
    → is_nil cells ≡ false
    → with_row cells (next_row rows) ≡ cells ∷ rows
with_row-blank [] rows h = cc
with_row-blank (cell ∷ []) rows h = prefix-blank cell [] rows
with_row-blank (cell ∷ d ∷ ds) rows h =
    ap (λ (r : Rows). prefix cell (next_cell r)) (with_row-blank (d ∷ ds) rows refl)
    ∙ prefix-blank cell (d ∷ ds) rows

includes-has : (c : Char) (s : String) → includes (c ∷ []) s ≡ has (code c) s
unfolding includes has strip_prefix
includes-has c [] = refl
includes-has c (d ∷ s) = ground (arith, includes-has c s)

-- What may stand behind a line.
abbrev EndsRow : String → Type 0
EndsRow [] = Unit
EndsRow (c ∷ s) = (code c == 13) ≡ true

crlf : (s : String) → "\r\n" <> s ≡ "\r" ∷ "\n" ∷ s
crlf s = rw (cons-append, cons-append, nil-append) refl

is_nil-map : (row : List String) → is_nil row ≡ false → is_nil (map safe row) ≡ false
is_nil-map [] h = h
is_nil-map (cell ∷ cells) h = refl

same_code : (n : ℕ) → (n == n) ≡ true
same_code n = ground arith

separated : (c : Char) (s u t : String) → (s <> ((c ∷ []) <> u)) <> t ≡ s <> (c ∷ (u <> t))
separated c s u t = rw (cons-append, nil-append, append_assoc, cons-append) refl

module _ (c : Char) (tidy : (code c == b'"') ≡ false) where
  abbrev cells_of : List String → List String
  cells_of row = map (cell_text (c ∷ [])) row

  EndsRow-Ends : (t : String) → EndsRow t → Ends (code c) t
  EndsRow-Ends [] e = tt
  EndsRow-Ends (d ∷ t) e = ground arith

  cell-append :
      (raw t : String)
      → Ends (code c) t
      → read (code c) start (cell_text (c ∷ []) raw <> t)
        ≡ prefix (safe raw) (read (code c) plain t)
  unfolding cell_text
  cell-append raw t e = quote-append (code c) tidy (c ∷ []) (safe raw) t (includes-has c) e

  row-append :
      (row : List String) (t : String)
      → is_nil row ≡ false
      → EndsRow t
      → read (code c) start (join (c ∷ []) (cells_of row) <> t)
        ≡ with_row (map safe row) (read (code c) plain t)
  unfolding join read
  row-append [] t h e = cc
  row-append (raw ∷ []) t h e = cell-append raw t (EndsRow-Ends t e)
  row-append (raw ∷ q ∷ qs) t h e =
      let rest = join (c ∷ []) (cells_of (q ∷ qs)) in
      let here = cell-append raw (c ∷ (rest <> t)) (ground arith) in
      let later = row-append (q ∷ qs) t refl e in
      let through : read (code c) plain (c ∷ (rest <> t))
          ≡ next_cell (read (code c) start (rest <> t)) =
        rw (same_code (code c)) refl in
      ap (read (code c) start) (separated c (cell_text (c ∷ []) raw) rest t)
      ∙ here
      ∙ ap (prefix (safe raw)) (through ∙ ap next_cell later)

  module _ (no_return : (code c == 13) ≡ false) where
    lines-read :
        (row : List String) (rows : List (List String))
        → is_nil row ≡ false
        → All (λ r. is_nil r ≡ false) rows
        → read (code c) start (lines (c ∷ []) (row ∷ rows)) ≡ map (map safe) (row ∷ rows)
    unfolding lines join read
    lines-read row [] h hs =
        ap (read (code c) start) (sym (append-nil (join (c ∷ []) (cells_of row))))
        ∙ row-append row [] h tt
        ∙ with_row-blank (map safe row) [] (is_nil-map row h)
    lines-read row (r ∷ rs) h (n, ns) =
        let rest = lines (c ∷ []) (r ∷ rs) in
        let line = join (c ∷ []) (cells_of row) in
        let through : read (code c) plain ("\r" ∷ "\n" ∷ rest)
            ≡ next_row (read (code c) start rest) =
          ground arith in
        ap (λ (s : String). read (code c) start (line <> s)) (crlf rest)
        ∙ row-append row ("\r" ∷ "\n" ∷ rest) h refl
        ∙ ap (with_row (map safe row)) (through ∙ ap next_row (lines-read r rs n ns))
        ∙ with_row-blank (map safe row) (map (map safe) (r ∷ rs)) (is_nil-map row h)

-- Whatever the cells hold, a reader that skips the byte order mark and knows the separator, one
-- character that is neither a quote nor a carriage return, gets from an exported table its rows back,
-- each with its cells in their order, a formula among them with the apostrophe before it. No row is
-- without cells.
pub read-table :
    (c : Char) (row : List String) (rows : List (List String))
    → (code c == b'"') ≡ false
    → (code c == 13) ≡ false
    → is_nil row ≡ false
    → All (λ r. is_nil r ≡ false) rows
    → read_file (code c) (table (c ∷ []) (row ∷ rows)) ≡ map (map safe) (row ∷ rows)
unfolding table read_file
read-table c row rows tidy no_return h hs =
    rw (cons-append, nil-append) (lines-read c tidy no_return row rows h hs)
