-- ===== src/ClientCsv/Pages.antt =====
-- clientCsvExport.ts: the loop over the pages of a provider that serves slices of one list.
use containerhub.Prelude.{
  ℕ, zero, suc, ◌+◌, ◌-◌, ◌*◌, ◌≤◌, ◌<◌, ◌≡◌, refl, sym, ap, Bool, true, false, ◌||◌, none, some,
  List, [], ◌∷◌, ◌++◌, length, take, drop, is_nil, leb, Outcome, ok, arith, length-take,
  length-drop, Bool-cases, inl, inr,
}
use containerhub.ClientCsv.{Answer, collect_rows}

-- A provider of a list, by pages as long as is asked.
abbrev pub slices : {T : Type 0} → List T → ℕ → ℕ → Outcome (Answer T)
slices all page limit =
    ok (record { items = take limit (drop ((page - 1) * limit) all); total = length all })

add-one : (n : ℕ) → n + 1 ≡ suc n
add-one n = omega arith

before_suc : (n : ℕ) → suc n - 1 ≡ n
before_suc n = omega arith

suc_times : (n m : ℕ) → n * m + m ≡ suc n * m
suc_times n m = grind arith

zero_times : (m : ℕ) → 0 ≡ 0 * m
zero_times m = omega arith

zero_plus : (m : ℕ) → 0 + m ≡ m
zero_plus m = omega arith

suc_plus : (n m : ℕ) → suc n + m ≡ suc (n + m)
suc_plus n m = omega arith

module _ {T : Type 0} where
  take-add : (n m : ℕ) (xs : List T) → take n xs ++ take m (drop n xs) ≡ take (n + m) xs
  take-add zero m xs = rw (zero_plus m) refl
  take-add (suc n) zero [] = rw (suc_plus n 0) refl
  take-add (suc n) (suc m) [] = rw (suc_plus n (suc m)) refl
  take-add (suc n) m (x ∷ xs) = rw (suc_plus n m) (ap (◌∷◌ x) (take-add n m xs))

  take-all : (n : ℕ) (xs : List T) → length xs ≤ n → take n xs ≡ xs
  take-all zero [] h = refl
  take-all zero (x ∷ xs) h = absurd (omega arith)
  take-all (suc n) [] h = refl
  take-all (suc n) (x ∷ xs) h = ap (◌∷◌ x) (take-all n xs (omega arith))

  length-is_nil : (xs : List T) → is_nil xs ≡ leb (length xs) 0
  length-is_nil [] = refl
  length-is_nil (x ∷ xs) = ground arith

  module _ (all : List T) (p : ℕ) (h : 0 < p) where
    abbrev stops : ℕ → Bool
    stops o = is_nil (take p (drop o all)) || leb (length all) (length (take (o + p) all))

    stops-all : (o : ℕ) → stops o ≡ true → length all ≤ o + p
    stops-all o s = ground (
      arith,
      length-is_nil (take p (drop o all)),
      length-take {0} p (drop o all),
      length-drop {0} o all,
      length-take {0} (o + p) all,
    )

    stops-not : (o : ℕ) → stops o ≡ false → o + p < length all
    stops-not o s = ground (arith, length-take {0} (o + p) all)

    pages :
        (fuel j o : ℕ)
        → o ≡ j * p
        → o ≤ length all
        → length all < fuel + o
        → collect_rows (slices all) p none fuel (suc j) (take o all) ≡ some (ok all)
    unfolding collect_rows
    pages zero j o at b f = absurd (omega arith)
    pages (suc fuel) j o at b f =
        let page : (suc j - 1) * p ≡ o = rw (before_suc j) (sym at) in
        let next : o + p ≡ suc j * p = rw at (suc_times j p) in
        rw (page, take-add o p all)
          (elim (Bool-cases (stops o)) [
            | inl last ↦ rw (last, take-all (o + p) all (stops-all o last)) refl
            | inr more ↦
                let before = stops-not o more in
                rw (more, add-one (suc j))
                  (pages fuel (suc j) (o + p) next (omega arith) (omega arith))
          ])

-- From a provider that serves slices of a list, in pages of any size but 0, an export without a
-- maximum gets the whole list, each row once and in its order, in at most one more round than the
-- list has rows.
pub export_all :
    {T : Type 0} (all : List T) (page_size fuel : ℕ)
    → 0 < page_size
    → length all < fuel
    → collect_rows (slices all) page_size none fuel 1 [] ≡ some (ok all)
export_all all page_size fuel h f =
    pages all page_size h fuel 0 0 (zero_times page_size) (omega arith) (omega arith)
