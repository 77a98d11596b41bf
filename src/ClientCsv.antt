-- ===== src/ClientCsv.antt =====
-- packages/containerhub-front/src/cruds/clientCsvExport.ts: the export of a list to CSV, page by page.
-- `show` is the text of a value that is not null: a joined array, the JSON of an object, or `String`.
pub mod Reader
pub mod RoundTrip
pub mod Pages
mod Tests
use Prim.Native.String.{String, [], ◌∷◌}
use Prim.Native.Char.{Char, code}
use containerhub.Prelude.{
  ℕ, zero, suc, ◌+◌, ◌-◌, min, Bool, true, false, ◌&&◌, ◌||◌, not, Option, none, some, List, [],
  ◌∷◌, ◌++◌, length, take, is_nil, map, filter, if◌then◌else◌, ltb, leb, ◌==◌, ◌===◌, Outcome, ok,
  throw, ◌>>=◌,
}
use containerhub.Prelude.Text.{◌<>◌, has, includes, split, join, trim, non_empty}
use containerhub.TaskInspect.{Json, Fields, null, object, array}
use containerhub.AgentTerminal.Control.{member}

-- An option that holds a list, or a text of its parts.
pub data Names : Type 0 where
  given : List String → Names
  listed : String → Names

unfoldable pub list : Option Names → List String
unfolding split trim
list none = []
list (some (given names)) = names
list (some (listed text)) = filter non_empty (map trim (split b',' text))

abbrev begins_formula : String → Bool
begins_formula [] = false
begins_formula (c ∷ s) = code c == b'=' || code c == b'+' || code c == b'-' || code c == b'@'

-- A text that a table would take for a formula gets an apostrophe.
unfoldable pub safe : String → String
safe raw = if begins_formula raw then "'" <> raw else raw

-- `text.replace(/"/g, '""')`
unfoldable pub double_quotes : String → String
double_quotes [] = []
double_quotes (c ∷ s) =
    let rest = double_quotes s in if code c == b'"' then c ∷ c ∷ rest else c ∷ rest

abbrev pub needs_quotes : String → String → Bool
needs_quotes separator text = includes separator text || has b'"' text || has 13 text || has 10 text

unfoldable pub quote : String → String → String
unfolding double_quotes
quote separator text =
    if needs_quotes separator text then "\"" <> double_quotes text <> "\"" else text

unfoldable pub cell_text : String → String → String
unfolding safe quote
cell_text separator raw = quote separator (safe raw)

module _ {N : Type 0} (show : Json N → String) where
  unfoldable pub cell : String → Option (Json N) → String
  unfolding cell_text
  cell separator none = []
  cell separator (some null) = []
  cell separator (some value) = cell_text separator (show value)

  abbrev part_of : Option (Json N) → String → Option (Json N)
  part_of (some (object fields)) key = member key fields
  part_of _ key = none

  abbrev nested : Option (Json N) → List String → Option (Json N)
  nested value [] = value
  nested value (key ∷ keys) = nested (part_of value key) keys

  unfoldable pub nested_value : Json N → String → Option (Json N)
  unfolding split member
  nested_value item path = nested (some item) (split b'.' path)

-- The lines of the file, of texts.
unfoldable pub lines : (separator : String) → List (List String) → String
unfolding join cell_text
lines separator rows =
    join "\r\n" (map (λ row. join separator (map (cell_text separator) row)) rows)

-- The byte order mark, 65279, before the lines.
unfoldable pub table : (separator : String) → List (List String) → String
unfolding lines
table separator rows = "\u{feff}" <> lines separator rows

-- What a provider answers: the items of a page, and how many there are in all.
pub record Answer (T : Type 0) : Type 0 where
  pub items : List T
  pub total : ℕ

abbrev at_most : {T : Type 0} → Option ℕ → List T → List T
at_most none rows = rows
at_most (some n) rows = take n rows

abbrev left_of : Option ℕ → ℕ → Option ℕ
left_of none n = none
left_of (some maximum) n = some (maximum - n)

abbrev is_full : Option ℕ → ℕ → Bool
is_full none n = false
is_full (some maximum) n = leb maximum n

abbrev page_limit : ℕ → Option ℕ → ℕ
page_limit page_size none = page_size
page_limit page_size (some left) = min page_size left

-- The loop over pages, in as many rounds as the fuel allows. No maximum is one without end.
module _ {T : Type 0} (paginate : (page limit : ℕ) → Outcome (Answer T)) (page_size : ℕ)
    (maximum : Option ℕ) where
  -- What a page adds: whether it is the last, and the rows with it.
  abbrev add_page : List T → Option ℕ → Outcome (Answer T) → Outcome (Bool × List T)
  add_page rows left (throw fault) = throw fault
  add_page rows left (ok answer) =
      let more = rows ++ at_most left answer.items in
      ok (is_nil answer.items || leb answer.total (length more), more)

  -- The next round, unless there are rows enough.
  unfoldable pub next_page : (page : ℕ) → List T → Option (Outcome (Bool × List T))
  next_page page rows =
      let left = left_of maximum (length rows) in
      if is_full maximum (length rows)
      then none
      else some (add_page rows left (paginate page (page_limit page_size left)))

  unfoldable pub collect_rows : (fuel page : ℕ) → List T → Option (Outcome (List T))
  unfolding next_page
  collect_rows zero page rows = none
  collect_rows (suc fuel) page rows = elim (next_page page rows) [
    | none ↦ some (ok rows)
    | some (throw fault) ↦ some (throw fault)
    | some (ok (true, more)) ↦ some (ok more)
    | some (ok (false, more)) ↦ collect_rows fuel (page + 1) more
  ]
