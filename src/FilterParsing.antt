-- ===== src/FilterParsing.antt =====
-- packages/containerhub-back/src/modules/services/services/ServiceFilters.ts: `parseServiceFilters`.
-- `JSON.parse`, `String` of a value and of an index are parameters; what is parsed is the text of a
-- query, if there is one.
pub mod Written
mod Tests
use Prim.Native.String.{String}
use containerhub.Prelude.{
  ℕ, ◌+◌, Bool, Option, none, some, List, [], ◌∷◌, if◌then◌else◌, ◌===◌, Outcome, ok, throw, error,
  ◌>>=◌,
}
use containerhub.Prelude.Text.{◌<>◌, is_empty}
use containerhub.TaskInspect.{
  Json, null, boolean, number, text, array, object, Items, no_item, item, Fields, no_field,
}
use containerhub.AgentTerminal.Control.{member}
use containerhub.ServiceList.{
  ServiceFilterOperator, eq, like, empty, ne, gt, lt, gte, lte, in_any, nin, ServiceFilterScalar,
  ServiceFilterValue, scalar, scalars, ServiceFilterField, id, name, stack, image, ports,
  created_at, updated_at, ServiceFilter,
}
use containerhub.ServiceList

unfoldable pub field_named : String → Option ServiceFilterField
field_named key =
    if key === "id"
    then some id
    else if key === "name"
    then some name
    else if key === "stack"
    then some stack
    else if key === "image"
    then some image
    else if key === "ports"
    then some ports
    else if key === "createdAt"
    then some created_at
    else if key === "updatedAt"
    then some updated_at
    else none

unfoldable pub operator_named : String → Option ServiceFilterOperator
operator_named key =
    if key === "eq"
    then some eq
    else if key === "like"
    then some like
    else if key === "empty"
    then some empty
    else if key === "ne"
    then some ne
    else if key === "gt"
    then some gt
    else if key === "lt"
    then some lt
    else if key === "gte"
    then some gte
    else if key === "lte"
    then some lte
    else if key === "in"
    then some in_any
    else if key === "nin"
    then some nin
    else none

abbrev both : {A : Type 0} → Option A → Option (List A) → Option (List A)
both (some x) (some xs) = some (x ∷ xs)
both _ _ = none

abbrev one : {A B : Type 0} → (A → B) → Option A → Option B
one f none = none
one f (some x) = some (f x)

abbrev or_throw : {A : Type 0} → Option A → String → Outcome A
or_throw (some x) message = ok x
or_throw none message = throw (error message)

module _ {N : Type 0} where
  -- The text that a value is, if it is one and the set has it.
  abbrev named : {A : Type 0} → (String → Option A) → Option (Json N) → Option A
  named find (some (text key)) = find key
  named find _ = none

  -- `validScalar`
  unfoldable pub valid_scalar : Json N → Option (ServiceFilterScalar N)
  valid_scalar (text s) = some (ServiceList.text s)
  valid_scalar (number n) = some (ServiceList.number n)
  valid_scalar (boolean b) = some (ServiceList.boolean b)
  valid_scalar _ = none

  unfoldable pub every_valid : Items N → Option (List (ServiceFilterScalar N))
  unfolding valid_scalar
  every_valid no_item = some []
  every_valid (item value values) = both (valid_scalar value) (every_valid values)

  unfoldable pub filter_value : Option (Json N) → Option (ServiceFilterValue N)
  unfolding valid_scalar every_valid
  filter_value none = none
  filter_value (some null) = some ServiceList.null
  filter_value (some (array values)) = one scalars (every_valid values)
  filter_value (some value) = one scalar (valid_scalar value)

  module _ (show_index : ℕ → String) (show : Option (Json N) → String) where
    abbrev invalid : ℕ → String → Option (Json N) → String
    invalid index what value =
        "filter at index "
        <> show_index index
        <> " has invalid "
        <> what
        <> " \""
        <> show value
        <> "\""

    unfoldable pub parse_service_filter_field : Option (Json N) → ℕ → Outcome ServiceFilterField
    unfolding field_named
    parse_service_filter_field value index =
        or_throw (named field_named value) (invalid index "field" value)

    unfoldable pub read_fields : ℕ → Fields N → Outcome (ServiceFilter N)
    unfolding parse_service_filter_field operator_named filter_value member
    read_fields index fields = parse_service_filter_field (member "field" fields) index >>= λ field.
        or_throw (named operator_named (member "operator" fields))
          (invalid index "operator" (member "operator" fields))
        >>= λ operator.
            or_throw (filter_value (member "value" fields)) (
              "filter at index "
              <> show_index index
              <> " value must be string, number, boolean, an array of those values, or null")
            >>= λ value. ok (record { field = field; operator = operator; value = value })

    -- An array is an object with none of the fields.
    unfoldable pub read_filter : ℕ → Json N → Outcome (ServiceFilter N)
    unfolding read_fields
    read_filter index (object fields) = read_fields index fields
    read_filter index (array values) = read_fields index no_field
    read_filter index _ =
        throw (error ("filter at index " <> show_index index <> " must be an object"))

    unfoldable pub read_filters : ℕ → Items N → Outcome (List (ServiceFilter N))
    unfolding read_filter
    read_filters index no_item = ok []
    read_filters index (item entry entries) = read_filter index entry >>= λ filter.
        read_filters (index + 1) entries >>= λ filters. ok (filter ∷ filters)

    abbrev of_array : Option (Json N) → Outcome (List (ServiceFilter N))
    of_array (some (array entries)) = read_filters 0 entries
    of_array _ = throw (error "filters must be a JSON-encoded array")

    unfoldable pub parse_service_filters :
        (json_parse : String → Option (Json N)) → Option String → Outcome (List (ServiceFilter N))
    unfolding read_filters
    parse_service_filters json_parse none = ok []
    parse_service_filters json_parse (some raw) =
        if is_empty raw then ok [] else of_array (json_parse raw)
