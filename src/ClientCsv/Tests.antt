-- ===== src/ClientCsv/Tests.antt =====
-- Runs of the export to CSV.
use containerhub.Prelude.{
  arith, ℕ, ◌≡◌, ◌-◌, ◌*◌, take, drop, refl, none, some, [], ◌∷◌, Outcome, ok,
}
use containerhub.Prelude.Text.{includes, has, strip_prefix, is_space}
use containerhub.TaskInspect.{number, object, no_field, field}
use containerhub.ClientCsv.{
  Answer, safe, cell_text, table, list, listed, nested_value, collect_rows,
}
use containerhub.ClientCsv.Reader.{read_file}
use containerhub.ClientCsv.RoundTrip.{read-table}
use containerhub.ClientCsv.Pages.{slices, export_all}

formula : cell_text ";" "=1+1;2" ≡ "\"'=1+1;2\""
unfolding cell_text includes strip_prefix has
formula = refl

quoted : cell_text ";" "a\"b" ≡ "\"a\"\"b\""
unfolding cell_text includes strip_prefix has
quoted = refl

headers : list (some (listed "id, name,,")) ≡ "id" ∷ "name" ∷ []
unfolding list is_space
headers = refl

inner :
    nested_value {N = ℕ}
      (λ v. "")
      (object (field "a" (object (field "b" (number 3) no_field)) no_field))
      "a.b"
    ≡ some (number 3)
unfolding nested_value
inner = refl

-- A provider of pages as long as is asked.
abbrev numbers : (page limit : ℕ) → Outcome (Answer ℕ)
numbers page limit =
    ok (record {
      items = take limit (drop ((page - 1) * limit) (1 ∷ 2 ∷ 3 ∷ 4 ∷ 5 ∷ []));
      total = 5;
    })

all_rows : collect_rows numbers 2 none 4 1 [] ≡ some (ok (1 ∷ 2 ∷ 3 ∷ 4 ∷ 5 ∷ []))
unfolding collect_rows
all_rows = refl

-- Of at most three rows in pages of two, the last page is asked for as the second page of one row: it
-- repeats the second row, and the third is missing.
three_rows : collect_rows numbers 2 (some 3) 4 1 [] ≡ some (ok (1 ∷ 2 ∷ 2 ∷ []))
unfolding collect_rows
three_rows = refl

read-table_example :
    read_file 59 (table ";" (("id" ∷ "na;me" ∷ []) ∷ ("\"1\"" ∷ "=x\r\n" ∷ []) ∷ []))
    ≡ ("id" ∷ "na;me" ∷ []) ∷ ("\"1\"" ∷ "'=x\r\n" ∷ []) ∷ []
unfolding safe
read-table_example =
    read-table ";" ("id" ∷ "na;me" ∷ []) (("\"1\"" ∷ "=x\r\n" ∷ []) ∷ []) refl refl refl (refl, tt)

export_all_example :
    collect_rows {T = ℕ} (slices (1 ∷ 2 ∷ 3 ∷ [])) 2 none 4 1 [] ≡ some (ok (1 ∷ 2 ∷ 3 ∷ []))
export_all_example = export_all (1 ∷ 2 ∷ 3 ∷ []) 2 4 (omega arith) (omega arith)
