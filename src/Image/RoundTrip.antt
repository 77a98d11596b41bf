-- ===== src/Image/RoundTrip.antt =====
-- `parseDockerImageReference` undoes the printing of a reference.
use Prim.Native.String.{String}
use containerhub.Prelude.{
  ◌≡◌, refl, ◌∙◌, Bool, true, false, Option, none, some, [], ◌∷◌, ◌++◌, All, filter, arith,
}
use containerhub.Prelude.Text.{
  ◌<>◌, non_empty, cut_first-append, split, join, Free, Free-append, Free-join, is_empty-append,
  single-append,
}
use containerhub.Image.{
  TagParts, tag_parts, RepositoryPath, repository_path, join_namespace, DockerImageReference,
  parse_docker_image_reference, reference_of, digest_parts,
}
use containerhub.Image.Parts.{
  IsPart, FitsDomain, segments, at-Free, path_read_back, tag_parts_tagged, Untagged-segments,
  tag_parts-Untagged, digest_parts_plain, digest_parts_digest,
}

-- What a reference is made of; a digest is an algorithm and a hash.
pub record Reference : Type 0 where
  pub path : RepositoryPath
  pub tag : Option String
  pub digest : Option (String × String)

abbrev pub repository : RepositoryPath → String
repository p = join "/" (segments p)

abbrev pub with_tag : String → Option String → String
with_tag s none = s
with_tag s (some t) = s <> ":" <> t

abbrev pub with_digest : String → Option (String × String) → String
with_digest s none = s
with_digest s (some (algorithm, hash)) = s <> "@" <> (algorithm <> ":" <> hash)

abbrev pub print : Reference → String
print r = with_digest (with_tag (repository r.path) r.tag) r.digest

abbrev IsTag : Option String → Type 0
IsTag none = Unit
IsTag (some t) = Free b':' t × Free b'/' t × Free b'@' t

abbrev IsDigest : Option (String × String) → Type 0
IsDigest none = Unit
IsDigest (some (algorithm, hash)) =
    (Free b':' algorithm × Free b'@' algorithm) × Free b'@' hash × (non_empty algorithm ≡ true)

pub record IsReference (r : Reference) : Type 0 where
  pub parts : All IsPart (segments r.path)
  pub colon_free : All (Free b':') (r.path.namespace ++ r.path.name ∷ [])
  pub domain : FitsDomain r.path.domain r.path.namespace
  pub tag : IsTag r.tag
  pub digest : IsDigest r.digest

-- What the program is to read off a reference: without a tag it is `latest`, and the full name has
-- the tag, or else the digest, or else `latest`.
abbrev tag_or_latest : Option String → String
tag_or_latest none = "latest"
tag_or_latest (some t) = t

abbrev is_some : Option String → Bool
is_some none = false
is_some (some _) = true

abbrev hash_of : Option (String × String) → String
hash_of none = ""
hash_of (some (algorithm, hash)) = hash

abbrev pub full_name_of : String → Option String → Option (String × String) → String
full_name_of s (some t) d = s <> ":" <> t
full_name_of s none none = s <> ":" <> "latest"
full_name_of s none (some d) = with_digest s (some d)

abbrev pub view : Reference → DockerImageReference
view r = record {
  id = hash_of r.digest;
  fullname = full_name_of (repository r.path) r.tag r.digest;
  domain = r.path.domain;
  namespace = join_namespace r.path.namespace;
  name = r.path.name;
  tag = tag_or_latest r.tag;
  name_with_tag = r.path.name <> ":" <> tag_or_latest r.tag;
}

read_steps :
    (input raw_name raw_digest : String) (t : TagParts) (p : RepositoryPath)
    → digest_parts (split b'@' input) ≡ (raw_name, raw_digest)
    → tag_parts raw_name ≡ t
    → repository_path (filter non_empty (split b'/' t.repository)) ≡ p
    → parse_docker_image_reference input ≡ reference_of t p raw_digest
unfolding parse_docker_image_reference
read_steps input raw_name raw_digest t p e f g = rw e (rw f (rw g))

-- The name part of a printed reference, with its tag.
module _ (p : RepositoryPath) (parts : All IsPart (segments p))
    (colon_free : All (Free b':') (p.namespace ++ p.name ∷ [])) where
  tag_parts-with_tag :
      (tag : Option String)
      → IsTag tag
      → tag_parts (with_tag (repository p) tag)
        ≡ record { has_tag = is_some tag; repository = repository p; tag = tag_or_latest tag }
  tag_parts-with_tag none h = tag_parts-Untagged (repository p) (Untagged-segments p colon_free)
  tag_parts-with_tag (some t) (h, k, _) = tag_parts_tagged (repository p) t h k

  with_tag-at_Free : (tag : Option String) → IsTag tag → Free b'@' (with_tag (repository p) tag)
  with_tag-at_Free none _ = Free-join b'@' "/" (segments p) ((omega arith), tt) (at-Free _ parts)
  with_tag-at_Free (some t) (_, _, h) =
      Free-append b'@' (repository p) _
        (Free-join b'@' "/" (segments p) ((omega arith), tt) (at-Free _ parts))
        (rw single-append ((omega arith), h))

abbrev digest_text : Option (String × String) → String
digest_text none = ""
digest_text (some (algorithm, hash)) = algorithm <> ":" <> hash

digest_parts-with_digest :
    (s : String) (d : Option (String × String))
    → Free b'@' s
    → IsDigest d
    → digest_parts (split b'@' (with_digest s d)) ≡ (s, digest_text d)
digest_parts-with_digest s none h _ = digest_parts_plain s h
digest_parts-with_digest s (some (a, x)) h ((_, ha), hx, _) =
    digest_parts_digest s (a <> ":" <> x) h
      (Free-append b'@' a _ ha (rw single-append ((omega arith), hx)))

reference_of-view :
    (p : RepositoryPath) (tag : Option String) (d : Option (String × String))
    → IsDigest d
    → reference_of
        (record { has_tag = is_some tag; repository = repository p; tag = tag_or_latest tag })
        p
        (digest_text d)
      ≡ view (record { path = p; tag = tag; digest = d })
unfolding reference_of
reference_of-view p none none h = refl
reference_of-view p (some t) none h = refl
reference_of-view p none (some (a, x)) ((ha, _), _, h) =
    rw (is_empty-append a (":" <> x) h, single-append, cut_first-append ":" a x ha)
reference_of-view p (some t) (some (a, x)) ((ha, _), _, h) =
    rw (is_empty-append a (":" <> x) h, single-append, cut_first-append ":" a x ha)

-- Reading a printed reference gives its parts back: the domain, the namespace, the name, the tag
-- (`latest` where there is none), the hash of the digest (empty where there is none) and the full
-- name. The parts of the path are not empty and hold no slash or `@`; only the domain may hold a
-- colon, and the first part of the path is taken for a domain exactly when the domain is given.
pub parse-print : (r : Reference) → IsReference r → parse_docker_image_reference (print r) ≡ view r
parse-print r h =
    read_steps (print r) (with_tag (repository r.path) r.tag) (digest_text r.digest) _ r.path
      (digest_parts-with_digest _ r.digest
        (with_tag-at_Free r.path h.parts h.colon_free r.tag h.tag) h.digest)
      (tag_parts-with_tag r.path h.parts h.colon_free r.tag h.tag)
      (path_read_back r.path h.parts h.domain)
    ∙ reference_of-view r.path r.tag r.digest h.digest
