-- ===== src/ServiceList/Filters.antt =====
-- How the operators of the filters belong together.
use Prim.Native.String.{String}
use containerhub.Prelude.{
  ℕ, ◌≡◌, refl, Bool, false, not, ◌||◌, Option, List, [], ◌∷◌, all, any, arith,
}
use containerhub.ServiceModel.{ServiceModel}
use containerhub.ServiceList.{
  ServiceFilterField, ServiceFilterOperator, eq, ne, in_any, nin, ServiceFilterScalar,
  ServiceFilterValue, scalar, scalars, null, Sign, matches_service_filter, service_filter_value,
  is_empty_filter_value, matches_values, matches_expected, equal_filter_value,
}

all-not-any {ℓ} :
    {A : Type ℓ} (p : A → Bool) (xs : List A) → all (λ x. not (p x)) xs ≡ not (any p xs)
all-not-any p [] = refl
all-not-any p (x ∷ xs) = rw (all-not-any p xs) (ground arith)

module _ {N : Type 0} (show : N → String) (lower : String → String)
    (locale_compare : String → String → Sign) (date_parse : String → Option ℕ)
    (service : ServiceModel N) (field : ServiceFilterField) where
  abbrev matches : ServiceFilterOperator → ServiceFilterValue N → Bool
  matches operator value =
      matches_service_filter show lower locale_compare date_parse service
        (record { field = field; operator = operator; value = value })

  abbrev actual_is : ServiceFilterScalar N → Bool
  actual_is =
      equal_filter_value show lower locale_compare date_parse
        (service_filter_value show lower locale_compare date_parse service field)

  ne-eq :
      (value : ServiceFilterValue N)
      → is_empty_filter_value value ≡ false
      → matches ne value ≡ not (matches eq value)
  unfolding matches_service_filter matches_values matches_expected is_empty_filter_value
  ne-eq null h = cc
  ne-eq (scalar value) h = rw h refl
  ne-eq (scalars []) h = cc
  ne-eq (scalars (value ∷ values)) h = refl

  nin-in_any :
      (value : ServiceFilterValue N)
      → is_empty_filter_value value ≡ false
      → matches nin value ≡ not (matches in_any value)
  unfolding matches_service_filter matches_values is_empty_filter_value
  nin-in_any null h = cc
  nin-in_any (scalar value) h = rw h (all-not-any actual_is (value ∷ []))
  nin-in_any (scalars []) h = cc
  nin-in_any (scalars (value ∷ values)) h = all-not-any actual_is (value ∷ values)

  -- A filter with a value that is not empty and its opposite let through complementary services: `ne`
  -- those that `eq` does not, `nin` those that `in` does not; `in` with one value is `eq`, and `in`
  -- with several is `in` with the first or with the others, if there are others.
  operators-opposite :
      (value : ServiceFilterValue N) (first second : ServiceFilterScalar N)
      (others : List (ServiceFilterScalar N))
      → is_empty_filter_value value ≡ false
      → is_empty_filter_value (scalar first) ≡ false
      → (matches ne value ≡ not (matches eq value))
        × (matches nin value ≡ not (matches in_any value))
        × (matches in_any (scalar first) ≡ matches eq (scalar first))
        × (matches in_any (scalars (first ∷ second ∷ others))
            ≡ (matches in_any (scalar first) || matches in_any (scalars (second ∷ others))))
  unfolding matches_service_filter matches_values matches_expected is_empty_filter_value
  operators-opposite value first second others h k =
      (ne-eq value h, nin-in_any value h, rw k (ground arith), rw k (ground arith))
