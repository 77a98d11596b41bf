-- ===== src/Image/Parts.antt =====
-- The steps of `parseDockerImageReference` on the printed form of a reference.
use Prim.Native.Char.{Char, code}
use Prim.Native.String.{String, [], ◌∷◌}
use mathlib.Core.List.{append_assoc}
use containerhub.Prelude.{
  ◌≡◌, refl, true, false, Option, none, some, List, [], ◌∷◌, ◌++◌, All, filter, arith, Option-cases,
  inl, inr,
}
use containerhub.Prelude.Text.{
  ◌<>◌, non_empty, has, cut_last, split, join, Free, Free-join, split-join, split-append,
  split_of_Free, cut_last_of_Free, cut_last-append, cut_last-append_Free, filter-non_empty,
  has-append, has_of_Free, single-append,
}
use containerhub.Image.{
  tag_parts, tag_parts_of, pop_name, is_domain, shift_domain, digest_parts, RepositoryPath,
  repository_path,
}

pop_name-append : (xs : List String) (n : String) → pop_name (xs ++ n ∷ []) ≡ (xs, n)
unfolding pop_name
pop_name-append [] n = refl
pop_name-append (x ∷ []) n = refl
pop_name-append (x ∷ y ∷ xs) n = rw (pop_name-append (y ∷ xs) n)

-- One part of a repository's path.
pub record IsPart (s : String) : Type 0 where
  pub filled : non_empty s ≡ true
  pub no_slash : Free b'/' s
  pub no_at : Free b'@' s

-- The first part of a namespace that is not taken for a domain.
abbrev pub NotDomain : List String → Type 0
NotDomain [] = Unit
NotDomain (p ∷ ps) = is_domain p ≡ false

abbrev pub domain_parts : Option String → List String
domain_parts none = []
domain_parts (some d) = d ∷ []

-- Whether the domain is one, or its absence shows.
abbrev pub FitsDomain : Option String → List String → Type 0
FitsDomain none ns = NotDomain ns
FitsDomain (some d) ns = is_domain d ≡ true

shift_domain-domain_parts :
    (d : Option String) (ns : List String)
    → FitsDomain d ns
    → shift_domain (domain_parts d ++ ns) ≡ (d, ns)
unfolding shift_domain
shift_domain-domain_parts none [] h = refl
shift_domain-domain_parts none (p ∷ ns) h = rw h
shift_domain-domain_parts (some d) ns h = rw h

abbrev pub segments : RepositoryPath → List String
segments p = domain_parts p.domain ++ (p.namespace ++ p.name ∷ [])

pub repository_path-segments :
    (p : RepositoryPath) → FitsDomain p.domain p.namespace → repository_path (segments p) ≡ p
unfolding repository_path
repository_path-segments p h =
    rw (← append_assoc (domain_parts p.domain) p.namespace (p.name ∷ [])) (
      rw (pop_name-append (domain_parts p.domain ++ p.namespace) p.name)
        (rw (shift_domain-domain_parts p.domain p.namespace h)))

pub filled_parts : (ps : List String) → All IsPart ps → All (λ p. non_empty p ≡ true) ps
filled_parts [] _ = tt
filled_parts (p ∷ ps) (h, hs) = (h.filled, filled_parts ps hs)

pub slash-Free : (ps : List String) → All IsPart ps → All (Free b'/') ps
slash-Free [] _ = tt
slash-Free (p ∷ ps) (h, hs) = (h.no_slash, slash-Free ps hs)

pub at-Free : (ps : List String) → All IsPart ps → All (Free b'@') ps
at-Free [] _ = tt
at-Free (p ∷ ps) (h, hs) = (h.no_at, at-Free ps hs)

-- A tag behind the last colon.
pub tag_parts_tagged :
    (s t : String)
    → Free b':' t
    → Free b'/' t
    → tag_parts (s <> ":" <> t) ≡ record { has_tag = true; repository = s; tag = t }
unfolding tag_parts
tag_parts_tagged s t h k =
    rw (single-append, cut_last-append ":" s t h, tag_parts_of) (rw (has_of_Free b'/' t k))

-- No colon behind the last slash.
abbrev pub Untagged : String → Type 0
Untagged s =
    (before behind : String) → cut_last b':' s ≡ some (before, behind) → has b'/' behind ≡ true

pub tag_parts-Untagged :
    (s : String)
    → Untagged s
    → tag_parts s ≡ record { has_tag = false; repository = s; tag = "latest" }
unfolding tag_parts
tag_parts-Untagged s h = elim (Option-cases (cut_last b':' s)) [
  | inl e ↦ rw (e, tag_parts_of)
  | inr ((a, b), e) ↦ rw (e, tag_parts_of) (rw (h a b e))
]

Untagged-of_Free : (s : String) → Free b':' s → Untagged s
Untagged-of_Free s h a b e = let q = cut_last_of_Free b':' s h in cc

has-separator : (c : Char) (s t : String) → has (code c) (s <> (c ∷ t)) ≡ true
unfolding has
has-separator c s t = rw has-append (ground arith)

-- A colon in the first part, the domain, is not taken for a tag.
Untagged-slash : (s t : String) → Free b':' t → Untagged (s <> "/" <> t)
Untagged-slash s t h a b e =
    let free : Free b':' ("/" <> t) = rw single-append ((omega arith), h) in
    let q = cut_last-append_Free b':' s ("/" <> t) free in
    elim (Option-cases (cut_last b':' s)) [
      | inl f ↦ let none_found = rw f at q in cc
      | inr ((a', b'), f) ↦
          let found = rw f at q in
          let same : b ≡ b' <> "/" <> t = cc in rw (same, single-append) (has-separator "/" b' t)
    ]

join-cons_last :
    (sep d : String) (xs : List String) (n : String)
    → join sep (d ∷ (xs ++ n ∷ [])) ≡ d <> sep <> join sep (xs ++ n ∷ [])
unfolding join
join-cons_last sep d [] n = refl
join-cons_last sep d (x ∷ xs) n = refl

Untagged-path :
    (d : Option String) (xs : List String) (n : String)
    → All (Free b':') (xs ++ n ∷ [])
    → Untagged (join "/" (domain_parts d ++ (xs ++ n ∷ [])))
Untagged-path none xs n h =
    Untagged-of_Free _ (Free-join b':' "/" (xs ++ n ∷ []) ((omega arith), tt) h)
Untagged-path (some d) xs n h =
    rw join-cons_last (Untagged-slash d _ (Free-join b':' "/" (xs ++ n ∷ []) ((omega arith), tt) h))

-- A printed path holds no tag: its parts but the domain hold no colon.
pub Untagged-segments :
    (p : RepositoryPath)
    → All (Free b':') (p.namespace ++ p.name ∷ [])
    → Untagged (join "/" (segments p))
Untagged-segments p h = Untagged-path p.domain p.namespace p.name h

pub digest_parts_plain : (s : String) → Free b'@' s → digest_parts (split b'@' s) ≡ (s, "")
unfolding digest_parts
digest_parts_plain s h = rw (split_of_Free b'@' s h)

pub digest_parts_digest :
    (s d : String) → Free b'@' s → Free b'@' d → digest_parts (split b'@' (s <> "@" <> d)) ≡ (s, d)
unfolding digest_parts
digest_parts_digest s d h k =
    rw (single-append, split-append "@" s d h) (rw (split_of_Free b'@' d k))

-- The parts of a printed path are read back.
split-join_last :
    (xs : List String) (n : String)
    → All (Free b'/') (xs ++ n ∷ [])
    → split b'/' (join "/" (xs ++ n ∷ [])) ≡ xs ++ n ∷ []
split-join_last [] n h = split-join "/" n [] h
split-join_last (x ∷ xs) n h = split-join "/" x (xs ++ n ∷ []) h

pub split-segments :
    (p : RepositoryPath) → All IsPart (segments p) → split b'/' (join "/" (segments p)) ≡ segments p
split-segments p h =
    let free = slash-Free (segments p) h in
    rw (← append_assoc (domain_parts p.domain) p.namespace (p.name ∷ [])) (
      split-join_last (domain_parts p.domain ++ p.namespace) p.name
        (rw (← append_assoc (domain_parts p.domain) p.namespace (p.name ∷ [])) at free))

pub path_read_back :
    (p : RepositoryPath)
    → All IsPart (segments p)
    → FitsDomain p.domain p.namespace
    → repository_path (filter non_empty (split b'/' (join "/" (segments p)))) ≡ p
path_read_back p h d =
    rw (split-segments p h, filter-non_empty (segments p) (filled_parts (segments p) h))
      (repository_path-segments p d)
