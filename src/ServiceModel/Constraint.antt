-- ===== src/ServiceModel/Constraint.antt =====
-- Constraints and variables of the environment, as `toServiceSpec` writes them and the model reads
-- them.
use Prim.Native.Char.{Char, code}
use Prim.Native.String.{String, [], ◌∷◌}
use text.Mathlib.TextLemmas.{nil-append, cons-append}
use containerhub.Prelude.{ℕ, ◌≡◌, refl, ap, ◌∙◌, true, false, ◌⊎◌, inl, inr, some, none, arith}
use containerhub.Prelude.Text.{◌<>◌, single-append, is_space, trim_start, strip_prefix}
use containerhub.ServiceModel.{
  starts_space, is_line_end, one_line, value_part, operation_part, match_constraint, constraint_of,
  map_constraint,
}

-- No white space.
abbrev pub Solid : String → Type 0
Solid [] = Unit
Solid (c ∷ s) = (is_space (code c) ≡ false) × Solid s

trim_start_of_solid : (s : String) → starts_space s ≡ false → trim_start s ≡ s
unfolding trim_start
trim_start_of_solid [] h = refl
trim_start_of_solid (c ∷ s) h = rw h

line_end-is_space : (c : ℕ) → is_space c ≡ false → is_line_end c ≡ false
unfolding is_space
line_end-is_space c h = ground arith

-- The value of a constraint: it begins with no white space, and stands on one line.
abbrev pub IsValue : String → Type 0
IsValue value = (starts_space value ≡ false) × (one_line value ≡ true)

value_part-space :
    (operation value : String)
    → IsValue value
    → value_part operation (" " ∷ value) ≡ some (operation, value)
unfolding value_part trim_start is_space
value_part-space operation value (h, k) = rw (trim_start_of_solid value h, k)

abbrev pub IsOperation : String → Type 0
IsOperation operation = (operation ≡ "==") ⊎ (operation ≡ "!=")

spaced :
    (a b : Char) (value : String) → " " <> (a ∷ b ∷ []) <> " " <> value ≡ " " ∷ a ∷ b ∷ " " ∷ value
spaced a b value = rw (single-append, single-append) (rw (cons-append, single-append))

operation_part-eq :
    (value : String)
    → IsValue value
    → operation_part (" " ∷ "=" ∷ "=" ∷ " " ∷ value) ≡ some ("==", value)
unfolding operation_part strip_prefix trim_start is_space
operation_part-eq value v = value_part-space "==" value v

operation_part-ne :
    (value : String)
    → IsValue value
    → operation_part (" " ∷ "!" ∷ "=" ∷ " " ∷ value) ≡ some ("!=", value)
unfolding operation_part strip_prefix trim_start is_space
operation_part-ne value v = value_part-space "!=" value v

operation_part-print :
    (operation value : String)
    → IsOperation operation
    → IsValue value
    → operation_part (" " <> operation <> " " <> value) ≡ some (operation, value)
operation_part-print operation value (inl e) v =
    rw e (ap operation_part (spaced "=" "=" value) ∙ operation_part-eq value v)
operation_part-print operation value (inr e) v =
    rw e (ap operation_part (spaced "!" "=" value) ∙ operation_part-ne value v)

operation_part_solid :
    (c : Char) (s : String) → is_space (code c) ≡ false → operation_part (c ∷ s) ≡ none
unfolding operation_part
operation_part_solid c s h = rw h

-- A constraint that is written is read back.
match_constraint-print :
    (name operation value : String)
    → Solid name
    → IsOperation operation
    → IsValue value
    → match_constraint (name <> " " <> operation <> " " <> value) ≡ some (name, operation, value)
unfolding match_constraint
match_constraint-print [] operation value h o v =
    rw (nil-append, single-append)
      (rw
        (← single-append " " (operation <> " " <> value), operation_part-print operation value o v))
match_constraint-print (c ∷ name) operation value (p, h) o v = rw cons-append (
    rw
      (
        operation_part_solid c (name <> " " <> operation <> " " <> value) p,
        match_constraint-print name operation value h o v,
      )
      (rw (line_end-is_space (code c) p)))

-- A constraint that `toServiceSpec` writes is read back, for a name without white space, the
-- operations `==` and `!=`, and a value on one line that begins with no white space.
pub map_constraint-print :
    (name operation value : String)
    → Solid name
    → IsOperation operation
    → IsValue value
    → map_constraint (name <> " " <> operation <> " " <> value)
      ≡ record { name = name; operation = operation; value = value }
unfolding map_constraint
map_constraint-print name operation value h o v =
    ap (constraint_of _) (match_constraint-print name operation value h o v)
