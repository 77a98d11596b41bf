-- ===== src/FilterParsing/Tests.antt =====
-- Filters in the text of a query.
use Prim.Native.String.{String}
use containerhub.Prelude.{
  ℕ, ◌≡◌, refl, Option, none, some, List, [], ◌∷◌, if◌then◌else◌, ◌===◌, ok, throw, error,
}
use containerhub.TaskInspect.{Json, null, text, array, object, no_item, item, no_field, field}
use containerhub.AgentTerminal.Control.{member}
use containerhub.ServiceList.{gte, in_any, created_at, stack, scalar, scalars, ServiceFilter}
use containerhub.ServiceList
use containerhub.FilterParsing.{read_filter, parse_service_filters}
use containerhub.FilterParsing.Written.{written, parse-written}

abbrev shown : ℕ → String
shown n = "2"

abbrev json_text : Option (Json ℕ) → String
json_text _ = "undefined"

abbrev filters : List (ServiceFilter ℕ)
filters =
    record { field = created_at; operator = gte; value = scalar (ServiceList.text "2026-01-01") }
    ∷ record {
      field = stack;
      operator = in_any;
      value = scalars (ServiceList.text "web" ∷ ServiceList.number 7 ∷ []);
    }
    ∷ []

abbrev no_operator : Json ℕ
no_operator = object (field "field" (text "id") no_field)

abbrev json_parse : String → Option (Json ℕ)
json_parse raw =
    if raw === "whole"
    then some (array (written filters no_item))
    else if raw === "broken"
    then some (array (written filters (item no_operator (item null no_item))))
    else none

no_json :
    parse_service_filters shown json_text json_parse (some "{")
    ≡ throw (error "filters must be a JSON-encoded array")
unfolding parse_service_filters
no_json = refl

missing : parse_service_filters shown json_text json_parse none ≡ ok []
unfolding parse_service_filters
missing = refl

-- A value that is missing is not null.
no_value :
    read_filter shown json_text 0
      (object (field "field" (text "id") (field "operator" (text "eq") no_field)))
    ≡ throw (
        error
          "filter at index 2 value must be string, number, boolean, an array of those values, or null")
unfolding read_filter member
no_value = refl

parse-written_example :
    (parse_service_filters shown json_text json_parse (some "whole") ≡ ok filters)
    × (parse_service_filters shown json_text json_parse (some "broken")
        ≡ throw (error "filter at index 2 has invalid operator \"undefined\""))
unfolding read_filter member
parse-written_example =
    parse-written shown json_text json_parse filters no_operator (item null no_item)
      (error "filter at index 2 has invalid operator \"undefined\"") "whole" "broken" refl refl refl
      refl refl
