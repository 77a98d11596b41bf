-- ===== src/ServiceList/Pages.antt =====
-- All pages together.
use Prim.Native.String.{String}
use containerhub.Prelude.{
  ℕ, zero, suc, ◌*◌, ◌+◌, ◌≤◌, ◌≡◌, refl, sym, ap, ◌∙◌, Bool, Option, List, [], ◌∷◌, ◌++◌, length,
  take, drop, arith,
}
use containerhub.ServiceModel.{ServiceModel}
use containerhub.ServiceList.{ServiceFilter, Sign, listed, sorted, paginate_services}

take-all {ℓ} : {A : Type ℓ} (n : ℕ) (xs : List A) → length xs ≤ n → take n xs ≡ xs
take-all zero [] h = refl
take-all zero (x ∷ xs) h = absurd (omega arith)
take-all (suc n) [] h = refl
take-all (suc n) (x ∷ xs) h = ap (◌∷◌ x) (take-all n xs (omega arith))

take-eq {ℓ} : {A : Type ℓ} (m n : ℕ) (xs : List A) → m ≡ n → take m xs ≡ take n xs
take-eq m n xs e = ap (λ k. take k xs) e

take-sum {ℓ} :
    {A : Type ℓ} (m n : ℕ) (xs : List A) → take m xs ++ take n (drop m xs) ≡ take (m + n) xs
take-sum zero n xs = take-eq n (0 + n) xs (omega arith)
take-sum (suc m) zero [] = sym (take-all (suc m + 0) [] (omega arith))
take-sum (suc m) (suc n) [] = sym (take-all (suc m + suc n) [] (omega arith))
take-sum (suc m) n (x ∷ xs) =
    ap (◌∷◌ x) (take-sum m n xs) ∙ take-eq (suc (m + n)) (suc m + n) (x ∷ xs) (omega arith)

module _ {N : Type 0} (show : N → String) (lower : String → String)
    (locale_compare : String → String → Sign) (date_parse : String → Option ℕ)
    (sort : (ServiceModel N → ServiceModel N → Sign)
      → List (ServiceModel N)
      → List (ServiceModel N))
    (filters : List (ServiceFilter N)) (query order_by : String) (descending : Bool)
    (services : List (ServiceModel N)) where
  abbrev pub whole : List (ServiceModel N)
  whole =
      sorted show lower locale_compare date_parse sort filters query order_by descending services

  -- The items of the first pages, joined.
  abbrev pub first_pages : (limit pages : ℕ) → List (ServiceModel N)
  first_pages limit zero = []
  first_pages limit (suc pages) =
      first_pages limit pages
      ++ (paginate_services show lower locale_compare date_parse sort (suc pages) limit filters
          query order_by descending services).items

  first_pages-take : (limit pages : ℕ) → first_pages limit pages ≡ take (pages * limit) whole
  unfolding paginate_services
  first_pages-take limit zero = take-eq 0 (0 * limit) whole (omega arith)
  first_pages-take limit (suc pages) = rw (first_pages-take limit pages) (
      take-sum (pages * limit) limit whole
      ∙ take-eq (pages * limit + limit) (suc pages * limit) whole (omega arith))

  -- The items of the pages, joined, are the whole sorted list, when the pages have room for the total;
  -- the total that each page gives is the number of services that match, if the sort keeps the length.
  pub pages-whole :
      (limit pages page : ℕ)
      → ((c : ServiceModel N → ServiceModel N → Sign) (xs : List (ServiceModel N))
          → length (sort c xs) ≡ length xs)
      → length whole ≤ pages * limit
      → (first_pages limit pages ≡ whole)
        × ((paginate_services show lower locale_compare date_parse sort page limit filters query
              order_by descending services).total
            ≡ length (listed show lower locale_compare date_parse filters query services))
  unfolding paginate_services sorted
  pages-whole limit pages page keeps room =
      (first_pages-take limit pages ∙ take-all (pages * limit) whole room, total page)
    where
      total :
          (page : ℕ)
          → (paginate_services show lower locale_compare date_parse sort page limit filters query
              order_by descending services).total
            ≡ length (listed show lower locale_compare date_parse filters query services)
      total zero = keeps _ _
      total (suc page) = keeps _ _
