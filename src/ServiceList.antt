-- ===== src/ServiceList.antt =====
-- packages/containerhub-back/src/modules/services/services/ServiceFilters.ts and `paginateServices`
-- of ServiceService.ts: which services are listed, in which order, on which page. `String` of a
-- number, lower case, `localeCompare`, `Date.parse` and the array's sort are parameters; a date
-- counts from the first that there is.
mod Filter
mod Filters
pub mod Pages
mod Tests
use Prim.Native.String.{String}
use containerhub.Prelude.{
  ℕ, zero, suc, ◌-◌, ◌*◌, ◌+◌, Bool, true, false, ◌&&◌, ◌||◌, not, Option, none, some, List, [],
  ◌∷◌, map, length, take, drop, all, any, filter, is_nil, ◌otherwise◌, if◌then◌else◌, ◌===◌, ◌==◌,
  ltb,
}
use containerhub.Prelude.Text.{◌<>◌, is_empty, includes, join, trim}
use containerhub.Image.{DockerImageReference}
use containerhub.ServiceModel.{ServiceModel, ServicePort}
pub use Filter.{
  ServiceFilterOperator, eq, like, empty, ne, gt, lt, gte, lte, in_any, nin, ServiceFilterScalar,
  text, number, boolean, ServiceFilterValue, null, scalar, scalars, ServiceFilterField, id, name,
  stack, image, ports, created_at, updated_at, ServiceFilter,
}

-- The sign of a comparison; one with a number that is none (`NaN`) has no sign.
pub data Sign : Type 0 where
  below same above : Sign

abbrev pub order : ℕ → ℕ → Sign
order a b = if ltb a b then below else if a == b then same else above

abbrev pub turned : Sign → Sign
turned below = above
turned same = same
turned above = below

abbrev order_dates : Option ℕ → Option ℕ → Option Sign
order_dates (some a) (some b) = some (order a b)
order_dates _ _ = none

abbrev is_sign : (Sign → Bool) → Option Sign → Bool
is_sign test none = false
is_sign test (some sign) = test sign

abbrev is_above : Sign → Bool
is_above above = true
is_above _ = false

abbrev is_below : Sign → Bool
is_below below = true
is_below _ = false

abbrev is_empty_actual : Option String → Bool
is_empty_actual none = true
is_empty_actual (some s) = is_empty s

-- `isEmptyFilterValue` of the value of a filter.
unfoldable pub is_empty_filter_value : {N : Type 0} → ServiceFilterValue N → Bool
is_empty_filter_value null = true
is_empty_filter_value (scalar (text s)) = is_empty s
is_empty_filter_value (scalar _) = false
is_empty_filter_value (scalars values) = is_nil values

unfoldable pub service_order_value : {N : Type 0} → ServiceModel N → String → Option String
service_order_value service order_by =
    if order_by === "id"
    then some service.id
    else if order_by === "name"
    then service.name
    else if order_by === "stack"
    then service.stack
    else if order_by === "createdAt"
    then service.created_at
    else if order_by === "updatedAt"
    then service.updated_at
    else if order_by === "image.nameWithTag"
    then some service.image.name_with_tag
    else none

module _ {N : Type 0} (show : N → String) (lower : String → String)
    (locale_compare : String → String → Sign) (date_parse : String → Option ℕ) where
  abbrev show_port : Option N → String
  show_port none = "null"
  show_port (some n) = show n

  abbrev pub show_scalar : ServiceFilterScalar N → String
  show_scalar (text s) = s
  show_scalar (number n) = show n
  show_scalar (boolean b) = if b then "true" else "false"

  unfoldable pub service_filter_value : ServiceModel N → ServiceFilterField → Option String
  service_filter_value service image = some service.image.name_with_tag
  service_filter_value service ports = some (
      join ","
        (map (λ p. show_port p.host_port <> ":" <> show_port p.container_port) service.ports))
  service_filter_value service id = some service.id
  service_filter_value service name = service.name
  service_filter_value service stack = service.stack
  service_filter_value service created_at = service.created_at
  service_filter_value service updated_at = service.updated_at

  unfoldable pub equal_filter_value : Option String → ServiceFilterScalar N → Bool
  equal_filter_value actual expected = (actual otherwise "") === show_scalar expected

  unfoldable pub compare_filter_value :
      Option String → ServiceFilterScalar N → ServiceFilterField → Option Sign
  compare_filter_value actual expected created_at =
      order_dates (date_parse (actual otherwise "")) (date_parse (show_scalar expected))
  compare_filter_value actual expected updated_at =
      order_dates (date_parse (actual otherwise "")) (date_parse (show_scalar expected))
  compare_filter_value actual expected _ =
      some (locale_compare (actual otherwise "") (show_scalar expected))

  abbrev like_values : ServiceModel N → ServiceFilterField → Option String → List (Option String)
  like_values service image actual = actual ∷ some service.image.fullname ∷ []
  like_values service _ actual = actual ∷ []

  -- What is behind the tests of the operators `in` and `nin`: one value is expected.
  unfoldable pub matches_expected :
      ServiceModel N
      → ServiceFilterField
      → ServiceFilterOperator
      → Option String
      → ServiceFilterScalar N
      → Bool
  unfolding equal_filter_value compare_filter_value
  matches_expected service field eq actual expected = equal_filter_value actual expected
  matches_expected service field ne actual expected = not (equal_filter_value actual expected)
  matches_expected service field like actual expected =
      any
        (λ value.
          is_empty (lower (show_scalar expected))
          || includes (lower (show_scalar expected)) (lower (value otherwise "")))
        (like_values service field actual)
  matches_expected service field gt actual expected =
      is_sign is_above (compare_filter_value actual expected field)
  matches_expected service field gte actual expected =
      is_sign (λ sign. not (is_below sign)) (compare_filter_value actual expected field)
  matches_expected service field lt actual expected =
      is_sign is_below (compare_filter_value actual expected field)
  matches_expected service field _ actual expected =
      is_sign (λ sign. not (is_above sign)) (compare_filter_value actual expected field)

  unfoldable pub matches_values :
      ServiceModel N
      → ServiceFilterField
      → ServiceFilterOperator
      → Option String
      → List (ServiceFilterScalar N)
      → Bool
  unfolding matches_expected equal_filter_value
  matches_values service field in_any actual values = any (equal_filter_value actual) values
  matches_values service field nin actual values =
      all (λ expected. not (equal_filter_value actual expected)) values
  matches_values service field operator actual [] = true
  matches_values service field operator actual (expected ∷ _) =
      matches_expected service field operator actual expected

  abbrev pub values_of : ServiceFilterValue N → List (ServiceFilterScalar N)
  values_of null = []
  values_of (scalar value) = value ∷ []
  values_of (scalars values) = values

  abbrev given : ServiceModel N → ServiceFilter N → Option String → Bool
  given service filter actual =
      is_empty_filter_value filter.value
      || matches_values service filter.field filter.operator actual (values_of filter.value)

  abbrev by_operator : ServiceFilterOperator → Bool → Bool → Bool
  by_operator empty absent matching = absent
  by_operator _ absent matching = matching

  unfoldable pub matches_service_filter : ServiceModel N → ServiceFilter N → Bool
  unfolding service_filter_value matches_values is_empty_filter_value
  matches_service_filter service filter =
      let actual = service_filter_value service filter.field in
      by_operator filter.operator (is_empty_actual actual) (given service filter actual)

  unfoldable pub matches_service_filters : ServiceModel N → List (ServiceFilter N) → Bool
  unfolding matches_service_filter
  matches_service_filters service filters = all (matches_service_filter service) filters

  -- The comparison that the list is sorted by: what is missing comes last in either order.
  abbrev order_values : Bool → Option String → Option String → Sign
  order_values descending none none = same
  order_values descending none (some right) = above
  order_values descending (some left) none = below
  order_values descending (some left) (some right) =
      if descending then turned (locale_compare left right) else locale_compare left right

  unfoldable pub order_services : String → Bool → ServiceModel N → ServiceModel N → Sign
  unfolding service_order_value
  order_services order_by descending left right =
      order_values descending (service_order_value left order_by)
        (service_order_value right order_by)

  abbrev pub names_search : String → Option String → Bool
  names_search query none = is_empty query
  names_search query (some shown) = is_empty query || includes query (lower shown)

  unfoldable pub listed :
      List (ServiceFilter N) → String → List (ServiceModel N) → List (ServiceModel N)
  unfolding matches_service_filters
  listed filters query services =
      filter
        (λ service.
          matches_service_filters service filters && names_search (lower (trim query)) service.name)
        services

  pub record ServicePage : Type 0 where
    pub page : ℕ
    pub limit : ℕ
    pub total : ℕ
    pub items : List (ServiceModel N)

  module _
      (sort : (ServiceModel N → ServiceModel N → Sign)
        → List (ServiceModel N)
        → List (ServiceModel N)) where
    -- What is sorted and cut into pages; `services` are those that Docker lists, as models.
    unfoldable pub sorted :
        List (ServiceFilter N)
        → (query order_by : String) → Bool
        → List (ServiceModel N)
        → List (ServiceModel N)
    unfolding listed order_services
    sorted filters query order_by descending services =
        sort (order_services order_by descending) (listed filters query services)

    -- `slice(start, start + limit)`; the page before the first starts below 0 and ends at 0.
    unfoldable pub paginate_services :
        (page limit : ℕ)
        → List (ServiceFilter N)
        → (query order_by : String) → Bool
        → List (ServiceModel N)
        → ServicePage
    unfolding sorted
    paginate_services zero limit filters query order_by descending services = record {
      page = 0;
      limit = limit;
      total = length (sorted filters query order_by descending services);
      items = [];
    }
    paginate_services (suc page) limit filters query order_by descending services =
        let services = sorted filters query order_by descending services in
        record {
          page = suc page;
          limit = limit;
          total = length services;
          items = take limit (drop (page * limit) services);
        }
