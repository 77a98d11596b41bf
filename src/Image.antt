-- ===== src/Image.antt =====
-- packages/containerhub-back/src/modules/services/helpers/parseDockerImageReference.ts: an image
-- reference `domain/namespace/name:tag@digest` taken apart. Texts are walked by character; the last
-- colon lies behind the last slash exactly when the part behind that colon holds no slash.
mod Parts
pub mod RoundTrip
mod Tests
use containerhub.Prelude.{
  ℕ, String, Bool, true, false, ◌&&◌, ◌||◌, not, Option, none, some, List, [], ◌∷◌, ◌++◌, filter,
  if◌then◌else◌, ◌===◌,
}
use containerhub.Prelude.Text.{◌<>◌, non_empty, is_empty, has, cut_first, cut_last, split, join}

pub record DockerImageReference : Type 0 where
  pub id : String
  pub fullname : String
  pub domain : Option String
  pub namespace : Option String
  pub name : String
  pub tag : String
  pub name_with_tag : String

-- `const [rawName = '', rawDigest = ''] = inputImage.split('@', 2)`
pub digest_parts : List String → String × String
digest_parts [] = ("", "")
digest_parts (raw_name ∷ []) = (raw_name, "")
digest_parts (raw_name ∷ raw_digest ∷ _) = (raw_name, raw_digest)

pub record TagParts : Type 0 where
  pub has_tag : Bool
  pub repository : String
  pub tag : String

-- `hasTag`, `repository` and `tag`, from the cut at the last colon.
tag_parts_of : String → Option (String × String) → TagParts
tag_parts_of raw_name none = record { has_tag = false; repository = raw_name; tag = "latest" }
tag_parts_of raw_name (some (before, behind)) =
    if has b'/' behind
    then record { has_tag = false; repository = raw_name; tag = "latest" }
    else record { has_tag = true; repository = before; tag = behind }

pub tag_parts : String → TagParts
unfolding tag_parts_of
tag_parts raw_name = tag_parts_of raw_name (cut_last b':' raw_name)

-- `repositoryParts.pop() ?? ''`: what is left, and the name.
pub pop_name : List String → List String × String
pop_name [] = ([], "")
pop_name (name ∷ []) = ([], name)
pop_name (part ∷ next ∷ parts) = let (rest, name) = pop_name (next ∷ parts) in (part ∷ rest, name)

unfoldable pub is_domain : String → Bool
is_domain part = non_empty part && (part === "localhost" || has b'.' part || has b':' part)

-- `repositoryParts.shift()` if the first part names a domain.
pub shift_domain : List String → Option String × List String
shift_domain [] = (none, [])
shift_domain (first ∷ rest) = if is_domain first then (some first, rest) else (none, first ∷ rest)

-- `repositoryParts.length ? repositoryParts.join('/') : null`
pub join_namespace : List String → Option String
join_namespace [] = none
join_namespace (part ∷ parts) = some (join "/" (part ∷ parts))

-- `rawDigest.slice(rawDigest.indexOf(':') + 1)`; without a colon that is the whole digest.
digest_id : String → Option (String × String) → String
digest_id raw_digest none = raw_digest
digest_id raw_digest (some (_, behind)) = behind

full_name : TagParts → String → String
full_name t raw_digest =
    if t.has_tag
    then t.repository <> ":" <> t.tag
    else if non_empty raw_digest
    then t.repository <> "@" <> raw_digest
    else t.repository <> ":" <> t.tag

-- The path of the repository: its domain, the parts of its namespace, and its name.
pub record RepositoryPath : Type 0 where
  pub domain : Option String
  pub namespace : List String
  pub name : String

pub repository_path : List String → RepositoryPath
unfolding pop_name shift_domain
repository_path parts =
    let (rest, name) = pop_name parts in
    let (domain, namespace) = shift_domain rest in
    record { domain = domain; namespace = namespace; name = name }

pub reference_of : TagParts → RepositoryPath → String → DockerImageReference
unfolding join_namespace digest_id full_name
reference_of t path raw_digest = record {
  id = if non_empty raw_digest then digest_id raw_digest (cut_first b':' raw_digest) else "";
  fullname = full_name t raw_digest;
  domain = path.domain;
  namespace = join_namespace path.namespace;
  name = path.name;
  tag = t.tag;
  name_with_tag = path.name <> ":" <> t.tag;
}

pub parse_docker_image_reference : String → DockerImageReference
unfolding digest_parts
parse_docker_image_reference input_image =
    let (raw_name, raw_digest) = digest_parts (split b'@' input_image) in
    let t = tag_parts raw_name in
    let parts = filter non_empty (split b'/' t.repository) in
    reference_of t (repository_path parts) raw_digest
