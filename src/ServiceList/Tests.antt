-- ===== src/ServiceList/Tests.antt =====
-- Lists of concrete services. Numbers show as `n`, dates are none, and the sort keeps the order.
use Prim.Native.String.{String, compare}
use containerhub.Prelude.{
  ℕ, ◌*◌, ◌≤◌, ◌≡◌, refl, true, false, Option, none, some, List, [], ◌∷◌, length, arith,
}
use containerhub.Prelude.Text.{trim}
use containerhub.ServiceSpec.{empty_spec}
use containerhub.ServiceModel.{ServiceModel, model_of}
use containerhub.ServiceList.{Sign, same, listed, sorted, paginate_services}
use containerhub.ServiceList.Pages.{whole, first_pages, pages-whole}

abbrev shown : ℕ → String
shown _ = "n"

abbrev same_text : String → String
same_text s = s

abbrev unordered : String → String → Sign
unordered _ _ = same

abbrev no_date : String → Option ℕ
no_date _ = none

abbrev unsorted :
    (ServiceModel ℕ → ServiceModel ℕ → Sign) → List (ServiceModel ℕ) → List (ServiceModel ℕ)
unsorted compare services = services

abbrev service_named : String → ServiceModel ℕ
service_named shown_name =
    record (model_of 1 (λ n. n) same_text shown_name none none (empty_spec {N = ℕ}) true) {
      name = some shown_name;
    }

abbrev services : List (ServiceModel ℕ)
services = service_named "web" ∷ service_named "db" ∷ service_named "queue" ∷ []

three_services : length services ≤ 2 * 2
three_services = omega arith

whole_run : whole shown same_text unordered no_date unsorted [] "" "name" false services ≡ services
unfolding sorted listed trim
whole_run = refl

pages-whole_example :
    (first_pages shown same_text unordered no_date unsorted [] "" "name" false services 2 2
      ≡ whole shown same_text unordered no_date unsorted [] "" "name" false services)
    × ((paginate_services shown same_text unordered no_date unsorted 1 2 [] "" "name" false
          services).total
        ≡ length (listed shown same_text unordered no_date [] "" services))
pages-whole_example =
    pages-whole shown same_text unordered no_date unsorted [] "" "name" false services 2 2 1
      (λ _ _. refl) (rw whole_run three_services)
