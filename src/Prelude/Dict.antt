-- ===== src/Prelude/Dict.antt =====
-- A `Map` with text keys, as an association list in the order of insertion, and its laws.
use Prim.Native.String.{String}
use mathlib.Core.Path.{◌≡◌, refl}
use mathlib.Core.Option.{Option, none, some}
use mathlib.Core.Logic.{inl, inr}
use mathlib.Core.List.{List, [], ◌∷◌}
use native.Mathlib.Omega.{arith}
use text.Mathlib.TextEquality.{eq_iff}
use containerhub.Prelude.Tests.{if◌then◌else◌, ◌===◌, Bool-cases}
use containerhub.Prelude.Lists.{All}

module _ {ℓ} {V : Type ℓ} where
  -- `get`.
  unfoldable pub lookup : (key : String) → (entries : List (String × V)) → Option V
  lookup key [] = none
  lookup key ((name, held) ∷ rest) = if name === key then some held else lookup key rest

  -- `set`: in its old place, or behind the others.
  unfoldable pub insert :
      (key : String) (value : V) (entries : List (String × V)) → List (String × V)
  insert key value [] = (key, value) ∷ []
  insert key value ((name, held) ∷ rest) =
      let behind = insert key value rest in
      if name === key then (key, value) ∷ rest else (name, held) ∷ behind

  -- `delete`.
  unfoldable pub delete : (key : String) (entries : List (String × V)) → List (String × V)
  delete key [] = []
  delete key ((name, held) ∷ rest) =
      let behind = delete key rest in if name === key then behind else (name, held) ∷ behind

  pub lookup-insert :
      (key other : String) (value : V) (entries : List (String × V))
      → lookup other (insert key value entries)
        ≡ (if key === other then some value else lookup other entries)
  unfolding lookup insert
  lookup-insert key other value [] = refl
  lookup-insert key other value ((name, held) ∷ rest) =
      let later = lookup-insert key other value rest in
      ground (arith, eq_iff name key, eq_iff name other, eq_iff key other, later)

  pub lookup-delete :
      (key other : String) (entries : List (String × V))
      → lookup other (delete key entries) ≡ (if key === other then none else lookup other entries)
  unfolding lookup delete
  lookup-delete key other [] = ground arith
  lookup-delete key other ((name, held) ∷ rest) =
      let later = lookup-delete key other rest in
      ground (arith, eq_iff name key, eq_iff name other, eq_iff key other, later)

pub ruleset dict_laws = (lookup-insert, lookup-delete)

module _ {ℓ} {V : Type ℓ} (P : String × V → Type 0) where
  pub All-insert :
      (k : String) (v : V) (m : List (String × V)) → P (k, v) → All P m → All P (insert k v m)
  unfolding insert
  All-insert k v [] p _ = (p, tt)
  All-insert k v ((j, w) ∷ m) p (q, h) = elim (Bool-cases (j === k)) [
    | inl e ↦ rw e (p, h)
    | inr e ↦ rw e (q, All-insert k v m p h)
  ]

  pub All-delete : (k : String) (m : List (String × V)) → All P m → All P (delete k m)
  unfolding delete
  All-delete k [] _ = tt
  All-delete k ((j, w) ∷ m) (q, h) = elim (Bool-cases (j === k)) [
    | inl e ↦ rw e (All-delete k m h)
    | inr e ↦ rw e (q, All-delete k m h)
  ]

  pub All-lookup :
      (k : String) (v : V) (m : List (String × V)) → All P m → lookup k m ≡ some v → P (k, v)
  unfolding lookup
  All-lookup k v [] _ e = cc
  All-lookup k v ((j, w) ∷ m) (q, h) e = elim (Bool-cases (j === k)) [
    | inl same ↦
        let found = rw same at e in
        let key : j ≡ k = (eq_iff j k).0 same in let val : w ≡ v = cc in rw (← key, ← val) q
    | inr other ↦ All-lookup k v m h (rw other at e)
  ]
