-- ===== src/ClientCsv/Reader.antt =====
-- A reader of CSV, and what it makes of a cell that clientCsvExport.ts writes.
use Prim.Native.String.{String, [], ◌∷◌}
use Prim.Native.Char.{Char, code}
use text.Mathlib.TextLemmas.{nil-append, cons-append, append_assoc}
use containerhub.Prelude.{
  ℕ, ◌≡◌, refl, sym, ap, ◌∙◌, Bool, true, false, ◌||◌, List, [], ◌∷◌, if◌then◌else◌, ◌==◌,
  Bool-cases, inl, inr, arith,
}
use containerhub.Prelude.Text.{◌<>◌, has, includes}
use containerhub.ClientCsv.{double_quotes, needs_quotes, quote}

-- Where the reader is: before a cell, in one, in a quoted one, behind its quote, or behind the first
-- character of a line's end.
pub data Mode : Type 0 where
  start plain quoted behind_quote line_end : Mode

abbrev pub Rows : Type 0
Rows = List (List String)

-- A character before the rest of its cell; a cell before the rest of its line; a line before the rest.
abbrev pub push : Char → Rows → Rows
push c [] = ((c ∷ []) ∷ []) ∷ []
push c ([] ∷ rows) = ((c ∷ []) ∷ []) ∷ rows
push c ((cell ∷ cells) ∷ rows) = ((c ∷ cell) ∷ cells) ∷ rows

abbrev pub next_cell : Rows → Rows
next_cell [] = ([] ∷ []) ∷ []
next_cell (row ∷ rows) = ([] ∷ row) ∷ rows

abbrev pub next_row : Rows → Rows
next_row rows = ([] ∷ []) ∷ rows

-- The cells of a text with a separator of one character.
unfoldable pub read : (separator : ℕ) → Mode → String → Rows
read k mode [] = ([] ∷ []) ∷ []
read k start (c ∷ s) =
    let inner = read k quoted s in
    let cell = next_cell (read k start s) in
    let row = next_row (read k line_end s) in
    let more = push c (read k plain s) in
    if code c == b'"'
    then inner
    else if code c == k
    then cell
    else if code c == 13
    then row
    else more
read k plain (c ∷ s) =
    let cell = next_cell (read k start s) in
    let row = next_row (read k line_end s) in
    let more = push c (read k plain s) in
    if code c == k then cell else if code c == 13 then row else more
read k quoted (c ∷ s) =
    let behind = read k behind_quote s in
    let more = push c (read k quoted s) in if code c == b'"' then behind else more
read k behind_quote (c ∷ s) =
    let more = push c (read k quoted s) in
    let cell = next_cell (read k start s) in
    let row = next_row (read k line_end s) in
    let rest = push c (read k plain s) in
    if code c == b'"'
    then more
    else if code c == k
    then cell
    else if code c == 13
    then row
    else rest
read k line_end (c ∷ s) = read k start s

-- A file, behind its byte order mark; without the mark it holds nothing.
unfoldable pub read_file : (separator : ℕ) → String → Rows
read_file k [] = []
read_file k (c ∷ s) = if code c == 65279 then read k start s else []

abbrev pub prefix : String → Rows → Rows
prefix [] rows = rows
prefix (c ∷ s) rows = push c (prefix s rows)

-- What follows a cell: nothing, a separator or the end of a line.
abbrev pub Ends : ℕ → String → Type 0
Ends k [] = Unit
Ends k (c ∷ s) = (code c == k || code c == 13) ≡ true

or-eq-false : (a b : Bool) → (a || b) ≡ false → (a ≡ false) × (b ≡ false)
or-eq-false a b h = ground arith

none_of : (a b c d : Bool) → (a || b || c || d) ≡ false → (a ≡ false) × (b ≡ false) × (c ≡ false)
none_of a b c d h = ground arith

-- A quoted text before what follows it.
around :
    (text t : String)
    → ("\"" <> double_quotes text <> "\"") <> t ≡ "\"" ∷ (double_quotes text <> ("\"" ∷ t))
around text t =
    rw (cons-append, nil-append, cons-append, append_assoc, cons-append, nil-append) refl

module _ (k : ℕ) (tidy : (k == b'"') ≡ false) where
  behind_quote-plain : (s : String) → Ends k s → read k behind_quote s ≡ read k plain s
  unfolding read
  behind_quote-plain [] e = refl
  behind_quote-plain (c ∷ s) e = ground arith

  start-plain : (s : String) → Ends k s → read k start s ≡ read k plain s
  unfolding read
  start-plain [] e = refl
  start-plain (c ∷ s) e = ground arith

  plain-append :
      (s t : String)
      → has k s ≡ false
      → has 13 s ≡ false
      → read k plain (s <> t) ≡ prefix s (read k plain t)
  unfolding read has
  plain-append [] t h r = rw nil-append refl
  plain-append (c ∷ s) t h r =
      let (other, hs) = or-eq-false (code c == k) (has k s) h in
      let (inside, rs) = or-eq-false (code c == 13) (has 13 s) r in
      rw (cons-append, other, inside) (ap (push c) (plain-append s t hs rs))

  start-append :
      (s t : String)
      → Ends k t
      → has k s ≡ false
      → has b'"' s ≡ false
      → has 13 s ≡ false
      → read k start (s <> t) ≡ prefix s (read k plain t)
  unfolding read has
  start-append [] t e h q r = rw nil-append (start-plain t e)
  start-append (c ∷ s) t e h q r =
      let (other, hs) = or-eq-false (code c == k) (has k s) h in
      let (bare, qs) = or-eq-false (code c == b'"') (has b'"' s) q in
      let (inside, rs) = or-eq-false (code c == 13) (has 13 s) r in
      rw (cons-append, other, bare, inside) (ap (push c) (plain-append s t hs rs))

  quoted-append :
      (s t : String)
      → read k quoted (double_quotes s <> ("\"" ∷ t)) ≡ prefix s (read k behind_quote t)
  unfolding read double_quotes
  quoted-append [] t = rw nil-append refl
  quoted-append (c ∷ s) t = elim (Bool-cases (code c == b'"')) [
    | inl is_quote ↦
        rw (is_quote, cons-append, cons-append) (rw is_quote (ap (push c) (quoted-append s t)))
    | inr other ↦ rw (other, cons-append) (rw other (ap (push c) (quoted-append s t)))
  ]

  pub quote-append :
      (separator text t : String)
      → ((s : String) → includes separator s ≡ has k s)
      → Ends k t
      → read k start (quote separator text <> t) ≡ prefix text (read k plain t)
  unfolding quote read
  quote-append separator text t same e = elim (Bool-cases (needs_quotes separator text)) [
    | inl quoted_cell ↦
        rw quoted_cell
          (rw (around text t) (quoted-append text t ∙ ap (prefix text) (behind_quote-plain t e)))
    | inr bare ↦
        let (no_separator, no_quote, no_return) =
          none_of (includes separator text) (has b'"' text) (has 13 text) (has 10 text) bare in
        rw bare (start-append text t e (sym (same text) ∙ no_separator) no_quote no_return)
  ]
