-- ===== src/FilterParsing/Written.antt =====
-- ServiceFilters.ts: `parseServiceFilters` reads what writes its filters.
use Prim.Native.String.{String}
use containerhub.Prelude.{
  ℕ, ◌+◌, ◌≡◌, refl, false, Option, some, List, [], ◌∷◌, length, ok, throw, Fault, arith,
}
use containerhub.Prelude.Text.{is_empty}
use containerhub.TaskInspect.{
  Json, null, boolean, number, text, array, object, Items, no_item, item, no_field, field,
}
use containerhub.AgentTerminal.Control.{member}
use containerhub.ServiceList.{
  ServiceFilterOperator, eq, like, empty, ne, gt, lt, gte, lte, in_any, nin, ServiceFilterScalar,
  ServiceFilterValue, scalar, scalars, ServiceFilterField, id, name, stack, image, ports,
  created_at, updated_at, ServiceFilter,
}
use containerhub.ServiceList
use containerhub.FilterParsing.{
  field_named, operator_named, valid_scalar, every_valid, filter_value, parse_service_filter_field,
  read_fields, read_filter, read_filters, parse_service_filters,
}

abbrev pub field_text : ServiceFilterField → String
field_text id = "id"
field_text name = "name"
field_text stack = "stack"
field_text image = "image"
field_text ports = "ports"
field_text created_at = "createdAt"
field_text updated_at = "updatedAt"

abbrev pub operator_text : ServiceFilterOperator → String
operator_text eq = "eq"
operator_text like = "like"
operator_text empty = "empty"
operator_text ne = "ne"
operator_text gt = "gt"
operator_text lt = "lt"
operator_text gte = "gte"
operator_text lte = "lte"
operator_text in_any = "in"
operator_text nin = "nin"

field_named-text : (key : ServiceFilterField) → field_named (field_text key) ≡ some key
unfolding field_named
field_named-text id = refl
field_named-text name = refl
field_named-text stack = refl
field_named-text image = refl
field_named-text ports = refl
field_named-text created_at = refl
field_named-text updated_at = refl

operator_named-text : (key : ServiceFilterOperator) → operator_named (operator_text key) ≡ some key
unfolding operator_named
operator_named-text eq = refl
operator_named-text like = refl
operator_named-text empty = refl
operator_named-text ne = refl
operator_named-text gt = refl
operator_named-text lt = refl
operator_named-text gte = refl
operator_named-text lte = refl
operator_named-text in_any = refl
operator_named-text nin = refl

module _ {N : Type 0} where
  abbrev write_scalar : ServiceFilterScalar N → Json N
  write_scalar (ServiceList.text s) = text s
  write_scalar (ServiceList.number n) = number n
  write_scalar (ServiceList.boolean b) = boolean b

  abbrev write_scalars : List (ServiceFilterScalar N) → Items N
  write_scalars [] = no_item
  write_scalars (value ∷ values) = item (write_scalar value) (write_scalars values)

  abbrev write_value : ServiceFilterValue N → Json N
  write_value ServiceList.null = null
  write_value (scalar value) = write_scalar value
  write_value (scalars values) = array (write_scalars values)

  -- A filter as JSON.
  abbrev pub write : ServiceFilter N → Json N
  write filter = object (
      field "field" (text (field_text filter.field)) (
        field "operator" (text (operator_text filter.operator))
          (field "value" (write_value filter.value) no_field)))

  -- Filters as the first entries of an array.
  abbrev pub written : List (ServiceFilter N) → Items N → Items N
  written [] others = others
  written (filter ∷ filters) others = item (write filter) (written filters others)

  valid_scalar-write :
      (value : ServiceFilterScalar N) → valid_scalar (write_scalar value) ≡ some value
  unfolding valid_scalar
  valid_scalar-write (ServiceList.text s) = refl
  valid_scalar-write (ServiceList.number n) = refl
  valid_scalar-write (ServiceList.boolean b) = refl

  every_valid-write :
      (values : List (ServiceFilterScalar N)) → every_valid (write_scalars values) ≡ some values
  unfolding every_valid
  every_valid-write [] = refl
  every_valid-write (value ∷ values) = rw (valid_scalar-write value, every_valid-write values) refl

  filter_value-write :
      (value : ServiceFilterValue N) → filter_value (some (write_value value)) ≡ some value
  unfolding filter_value valid_scalar
  filter_value-write ServiceList.null = refl
  filter_value-write (scalar (ServiceList.text s)) = refl
  filter_value-write (scalar (ServiceList.number n)) = refl
  filter_value-write (scalar (ServiceList.boolean b)) = refl
  filter_value-write (scalars values) = rw (every_valid-write values) refl

  module _ (show_index : ℕ → String) (show : Option (Json N) → String) where
    read_filter-write :
        (index : ℕ) (filter : ServiceFilter N)
        → read_filter show_index show index (write filter) ≡ ok filter
    unfolding read_filter read_fields parse_service_filter_field member
    read_filter-write index filter =
        rw
          (
            field_named-text filter.field,
            operator_named-text filter.operator,
            filter_value-write filter.value,
          )
          refl

    all_read :
        (index : ℕ) (filters : List (ServiceFilter N))
        → read_filters show_index show index (written filters no_item) ≡ ok filters
    unfolding read_filters
    all_read index [] = refl
    all_read index (filter ∷ filters) =
        rw (read_filter-write index filter, all_read (index + 1) filters) refl

    first_refused :
        (index at : ℕ) (filters : List (ServiceFilter N)) (bad : Json N) (others : Items N)
        (fault : Fault)
        → at ≡ index + length filters
        → read_filter show_index show at bad ≡ throw fault
        → read_filters show_index show index (written filters (item bad others)) ≡ throw fault
    unfolding read_filters
    first_refused index at [] bad others fault same refused =
        let here : at ≡ index = omega arith in rw (← here, refused) refl
    first_refused index at (filter ∷ filters) bad others fault same refused =
        rw
          (
            read_filter-write index filter,
            first_refused (index + 1) at filters bad others fault (omega arith) refused,
          )
          refl

-- Filters of any fields, operators and values that are written as the entries of an array are read
-- back as they were. With an entry behind them that is refused at its index, the request is refused
-- with the fault of that entry, whatever comes after it.
pub parse-written :
    {N : Type 0} (show_index : ℕ → String) (show : Option (Json N) → String)
    (json_parse : String → Option (Json N)) (filters : List (ServiceFilter N)) (bad : Json N)
    (others : Items N) (fault : Fault) (whole broken : String)
    → is_empty whole ≡ false
    → json_parse whole ≡ some (array (written filters no_item))
    → is_empty broken ≡ false
    → json_parse broken ≡ some (array (written filters (item bad others)))
    → read_filter show_index show (length filters) bad ≡ throw fault
    → (parse_service_filters show_index show json_parse (some whole) ≡ ok filters)
      × (parse_service_filters show_index show json_parse (some broken) ≡ throw fault)
unfolding parse_service_filters
parse-written show_index show json_parse filters bad others fault whole broken w wp b bp refused = (
  rw (w, wp) (all_read show_index show 0 filters),
  rw (b, bp)
      (first_refused show_index show 0 (length filters) filters bad others fault (omega arith)
        refused),
)
