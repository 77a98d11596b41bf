-- ===== src/Prelude/Text.antt =====
-- Texts walked by character: the searches, cuts and splits at an ASCII separator that the program
-- uses, and their laws. A separator is given by its code.
use Prim.Native.Char.{Char, code}
use Prim.Native.Nat.{ℕ}
use Prim.Native.String
use Prim.Native.String.{String, [], ◌∷◌}
use mathlib.Core.Path.{◌≡◌, refl, ap, ◌∙◌}
use mathlib.Core.Bool.{Bool, true, false, ◌||◌, ◌&&◌, not}
use mathlib.Core.Logic.{◌≢◌}
use mathlib.Core.Option.{Option, none, some}
use mathlib.Core.List.{List, [], ◌∷◌}
use native.Mathlib.Omega.{arith}
use text.Mathlib.TextLemmas.{nil-append, cons-append}
use containerhub.Prelude.Tests.{leb, if◌then◌else◌, ◌==◌}
use containerhub.Prelude.Lists.{All, filter}

infixr 65 ◌<>◌
abbrev pub ◌<>◌ : String → String → String
s <> t = String.◌++◌ s t

-- `Boolean(text)`.
abbrev pub is_empty : String → Bool
is_empty [] = true
is_empty (c ∷ s) = false

abbrev pub non_empty : String → Bool
non_empty s = not (is_empty s)

-- `text.includes(separator)`.
unfoldable pub has : ℕ → String → Bool
has k [] = false
has k (c ∷ s) = code c == k || has k s

abbrev push_front : Char → Option (String × String) → Option (String × String)
push_front c none = none
push_front c (some (a, b)) = some (c ∷ a, b)

-- The parts before and after the first separator: `indexOf` with the two slices.
unfoldable pub cut_first : ℕ → String → Option (String × String)
cut_first k [] = none
cut_first k (c ∷ s) =
    let rest = push_front c (cut_first k s) in if code c == k then some ([], s) else rest

abbrev or_here : Bool → Char → String → Option (String × String) → Option (String × String)
or_here b c s (some (a, d)) = some (c ∷ a, d)
or_here b c s none = if b then some ([], s) else none

-- The parts before and after the last separator: `lastIndexOf` with the two slices.
unfoldable pub cut_last : ℕ → String → Option (String × String)
cut_last k [] = none
cut_last k (c ∷ s) = or_here (code c == k) c s (cut_last k s)

abbrev grow : Char → List String → List String
grow c [] = (c ∷ []) ∷ []
grow c (p ∷ ps) = (c ∷ p) ∷ ps

-- `text.split(separator)`: never empty.
unfoldable pub split : ℕ → String → List String
split k [] = [] ∷ []
split k (c ∷ s) = let rest = split k s in if code c == k then [] ∷ rest else grow c rest

-- `parts.join(separator)`.
unfoldable pub join : String → List String → String
join sep [] = []
join sep (p ∷ []) = p
join sep (p ∷ q ∷ ps) = p <> sep <> join sep (q ∷ ps)

-- No character has the code `k`.
abbrev pub Free : ℕ → String → Type 0
Free k [] = Unit
Free k (c ∷ s) = (code c ≢ k) × Free k s

pub Free-append : (k : ℕ) (s t : String) → Free k s → Free k t → Free k (s <> t)
Free-append k [] t _ h = rw nil-append h
Free-append k (c ∷ s) t (p, g) h = rw cons-append (p, Free-append k s t g h)

pub has_of_Free : (k : ℕ) (s : String) → Free k s → has k s ≡ false
unfolding has
has_of_Free k [] h = refl
has_of_Free k (c ∷ s) (p, h) = ground (arith, has_of_Free k s h)

pub has-append : (k : ℕ) (s t : String) → has k (s <> t) ≡ (has k s || has k t)
unfolding has
has-append k [] t = rw nil-append
has-append k (c ∷ s) t = rw cons-append (ground (arith, has-append k s t))

pub cut_first_of_Free : (k : ℕ) (s : String) → Free k s → cut_first k s ≡ none
unfolding cut_first
cut_first_of_Free k [] h = refl
cut_first_of_Free k (c ∷ s) (p, h) = ground (arith, cut_first_of_Free k s h)

pub cut_last_of_Free : (k : ℕ) (s : String) → Free k s → cut_last k s ≡ none
unfolding cut_last
cut_last_of_Free k [] h = refl
cut_last_of_Free k (c ∷ s) (p, h) = rw (cut_last_of_Free k s h) (ground arith)

pub cut_first-append :
    (c : Char) (s t : String) → Free (code c) s → cut_first (code c) (s <> (c ∷ t)) ≡ some (s, t)
unfolding cut_first
cut_first-append c [] t h = rw nil-append (ground arith)
cut_first-append c (d ∷ s) t (p, h) = rw (cons-append, cut_first-append c s t h) (ground arith)

pub cut_last-append :
    (c : Char) (s t : String) → Free (code c) t → cut_last (code c) (s <> (c ∷ t)) ≡ some (s, t)
unfolding cut_last
cut_last-append c [] t h = rw (nil-append, cut_last_of_Free (code c) t h) (ground arith)
cut_last-append c (d ∷ s) t h = rw (cons-append, cut_last-append c s t h) refl

pub split_of_Free : (k : ℕ) (s : String) → Free k s → split k s ≡ s ∷ []
unfolding split
split_of_Free k [] h = refl
split_of_Free k (c ∷ s) (p, h) = rw (split_of_Free k s h) (ground arith)

pub split-append :
    (c : Char) (s t : String)
    → Free (code c) s
    → split (code c) (s <> (c ∷ t)) ≡ s ∷ split (code c) t
unfolding split
split-append c [] t h = rw nil-append (ground arith)
split-append c (d ∷ s) t (p, h) = rw (cons-append, split-append c s t h) (ground arith)

-- Splitting undoes joining, for parts that do not hold the separator.
pub split-join :
    (c : Char) (p : String) (ps : List String)
    → All (Free (code c)) (p ∷ ps)
    → split (code c) (join (c ∷ []) (p ∷ ps)) ≡ p ∷ ps
unfolding join
split-join c p [] (h, _) = split_of_Free (code c) p h
split-join c p (q ∷ ps) (h, hs) =
    rw (cons-append, nil-append)
      (split-append c p (join (c ∷ []) (q ∷ ps)) h ∙ ap (◌∷◌ p) (split-join c q ps hs))

pub Free-join :
    (k : ℕ) (sep : String) (ps : List String) → Free k sep → All (Free k) ps → Free k (join sep ps)
unfolding join
Free-join k sep [] h _ = tt
Free-join k sep (p ∷ []) h (g, _) = g
Free-join k sep (p ∷ q ∷ ps) h (g, gs) =
    Free-append k p _ g (Free-append k sep _ h (Free-join k sep (q ∷ ps) h gs))

-- A suffix without the separator stays behind the last separator.
pub cut_last-append_Free :
    (k : ℕ) (s t : String)
    → Free k t
    → cut_last k (s <> t) ≡ elim (cut_last k s) [ none ↦ none | some (a, b) ↦ some (a, b <> t) ]
unfolding cut_last
cut_last-append_Free k [] t h = rw nil-append (cut_last_of_Free k t h)
cut_last-append_Free k (c ∷ s) t h = rw (cons-append, cut_last-append_Free k s t h) (ground arith)

pub filter-non_empty :
    (ps : List String) → All (λ p. non_empty p ≡ true) ps → filter non_empty ps ≡ ps
filter-non_empty [] _ = refl
filter-non_empty (p ∷ ps) (h, hs) = rw (h, filter-non_empty ps hs)

pub single-append : (c : Char) (t : String) → (c ∷ []) <> t ≡ c ∷ t
single-append c t = rw (cons-append, nil-append)

pub is_empty-append : (s t : String) → non_empty s ≡ true → is_empty (s <> t) ≡ false
is_empty-append [] t h = cc
is_empty-append (c ∷ s) t h = rw cons-append

-- The white space of JavaScript: what `trim` removes and `\\s` matches.
unfoldable pub is_space : ℕ → Bool
is_space c =
    (leb 9 c && leb c 13)
    || c == 32
    || c == 160
    || c == 5760
    || (leb 8192 c && leb c 8202)
    || c == 8232
    || c == 8233
    || c == 8239
    || c == 8287
    || c == 12288
    || c == 65279

unfoldable pub trim_start : String → String
trim_start [] = []
trim_start (c ∷ s) = let rest = trim_start s in if is_space (code c) then rest else c ∷ s

abbrev drop_blank : Char → String → String
drop_blank c [] = if is_space (code c) then [] else c ∷ []
drop_blank c (d ∷ s) = c ∷ d ∷ s

unfoldable pub trim_end : String → String
trim_end [] = []
trim_end (c ∷ s) = drop_blank c (trim_end s)

unfoldable pub trim : String → String
unfolding trim_start trim_end
trim s = trim_end (trim_start s)

-- What follows a prefix.
unfoldable pub strip_prefix : String → String → Option String
strip_prefix [] s = some s
strip_prefix (c ∷ p) [] = none
strip_prefix (c ∷ p) (d ∷ s) =
    let rest = strip_prefix p s in if code c == code d then rest else none

abbrev or_later : Char → Option String → String → String
or_later c none later = c ∷ later
or_later c (some rest) later = rest

-- `text.replace(pattern, '')` for a pattern that is a text and not empty: its first occurrence goes.
unfoldable pub remove_first : String → String → String
remove_first pattern [] = []
remove_first pattern (c ∷ s) = or_later c (strip_prefix pattern (c ∷ s)) (remove_first pattern s)

-- `text.includes(pattern)` for a pattern that is not empty.
unfoldable pub includes : String → String → Bool
includes pattern [] = false
includes pattern (c ∷ s) = elim (strip_prefix pattern (c ∷ s)) [
  | some _ ↦ true
  | none ↦ includes pattern s
]
