-- ===== src/Registry/Images.antt =====
-- RegistryService.ts and the same loop of GitLabService.ts: what is asked of a registry, and what its
-- answers become. `encode` is `encodeURIComponent`, `json_page` reads a page of a list.
use Prim.Native.String.{String}
use containerhub.Prelude.{
  ℕ, ◌+◌, Bool, false, ◌||◌, not, Option, none, some, List, [], ◌∷◌, length, any, map,
  if◌then◌else◌, ◌==◌, ◌===◌, ◌otherwise◌, ◌or_else◌, map?, is_some, is_nil, Outcome, ok, throw,
  ◌>>=◌, ◌>>◌, require, error,
}
use containerhub.Prelude.Text.{◌<>◌, is_empty, non_empty, cut_last, split, join}
use containerhub.Registry.{Url, Page, Gathered, read_pages, nothing}

-- A page's `repositories` or `tags`, beside its other fields.
pub record Listing (O : Type 0) : Type 0 where
  pub entries : Option (List String)
  pub others : O

-- What the list becomes: the first page alone, or with the entries of all.
unfoldable pub listing_of : {O : Type 0} → Page String O → Gathered String → Listing O
listing_of first gathered =
    if length gathered.visited == 1
    then record { entries = first.listed; others = first.others }
    else record { entries = some gathered.entries; others = first.others }

module _ {O : Type 0} (fetch : Url → Outcome (Page String O))
    (resolve : String → Url → Outcome Url) where
  unfoldable pub registry_list : (fuel : ℕ) → Url → Option (Outcome (Listing O))
  unfolding listing_of
  registry_list fuel first =
      elim (read_pages fetch resolve (error "Invalid Registry pagination link") first fuel first
        nothing) [
          | none ↦ none
          | some (throw fault) ↦ some (throw fault)
          | some (ok gathered) ↦ some (fetch first >>= λ page. ok (listing_of page gathered))
        ]

-- `fetchImages`: the names of the repositories.
unfoldable pub images_of : {O : Type 0} → Listing O → List String
images_of listing = listing.entries otherwise []

abbrev is_bad_segment : String → Bool
is_bad_segment segment = is_empty segment || segment === "." || segment === ".."

-- `encodedRepository`, for a repository that is a text.
unfoldable pub encoded_repository : (encode : String → String) → String → Outcome String
unfolding split join
encoded_repository encode repository =
    let segments = split b'/' repository in
    require (not (any is_bad_segment segments))
      (record { message = "valid repository is required"; status_code = some 400 })
    >> ok (join "/" (map encode segments))

-- `fetchProjectTags` of GitLabService.ts.
unfoldable pub fetch_project_tags :
    {E O : Type 0}
    → (fetch : Url → Outcome (Page E O)) → (resolve : String → Url → Outcome Url) → (fuel : ℕ) → Url
    → Option (Outcome (List E))
fetch_project_tags fetch resolve fuel first =
    elim (read_pages fetch resolve (error "Invalid GitLab pagination link") first fuel first
      nothing) [
        | none ↦ none
        | some (throw fault) ↦ some (throw fault)
        | some (ok gathered) ↦ some (ok gathered.entries)
      ]

pub record Platform : Type 0 where
  pub digest : Option String
  pub os : Option String
  pub architecture : Option String
  pub variant : Option String

-- What the manifest of an image says; a layer is its size, if that is a number.
pub record Manifest : Type 0 where
  pub schema_version : Option ℕ
  pub media_type : Option String
  pub config_size : Option ℕ
  pub layers : Option (List (Option ℕ))
  pub manifests : Option (List Platform)

pub data Kind : Type 0 where
  index image unknown : Kind

pub record ImageDetails : Type 0 where
  pub repository : String
  pub reference : String
  pub content_digest : Option String
  pub content_type : Option String
  pub version : Option ℕ
  pub kind : Kind
  pub layer_count : ℕ
  pub compressed_size : Option ℕ
  pub platforms : List Platform

-- The sizes that are numbers.
unfoldable pub known_sizes : List (Option ℕ) → List ℕ
known_sizes [] = []
known_sizes (none ∷ sizes) = known_sizes sizes
known_sizes (some size ∷ sizes) = size ∷ known_sizes sizes

abbrev total : List ℕ → ℕ
total [] = 0
total (size ∷ sizes) = size + total sizes

unfoldable pub compressed_size_of : Manifest → Option ℕ
unfolding known_sizes
compressed_size_of manifest =
    let layers = manifest.layers otherwise [] in
    let sizes = known_sizes layers in
    if is_some manifest.manifests || not (length sizes == length layers)
    then none
    else map? (λ size. size + total sizes) manifest.config_size

-- The answer of `fetchImageDetails`, from the headers and the manifest.
unfoldable pub details_of :
    (repository reference : String) (digest content_type : Option String) → Manifest → ImageDetails
unfolding compressed_size_of
details_of repository reference digest content_type manifest =
    let layers = manifest.layers otherwise [] in
    record {
      repository = repository;
      reference = reference;
      content_digest = digest;
      content_type = manifest.media_type or_else content_type;
      version = manifest.schema_version;
      kind =
          if is_some manifest.manifests
          then index
          else if not (is_nil layers)
          then image
          else unknown;
      layer_count = length layers;
      compressed_size = compressed_size_of manifest;
      platforms = manifest.manifests otherwise [];
    }

-- The path that `fetchImageDetails` asks for.
unfoldable pub manifest_path :
    (encode : String → String) (repository reference : String) → Outcome String
unfolding encoded_repository
manifest_path encode repository reference = do
  require (non_empty reference) (error "reference is required")
  path ← encoded_repository encode repository
  ok (path <> "/manifests/" <> encode reference)

abbrev ends_in_slash : String → Bool
ends_in_slash s = elim (cut_last b'/' s) [ none ↦ false | some (before, behind) ↦ is_empty behind ]

-- The address of a service whose base may lack its last slash.
unfoldable pub base_address : String → String
base_address base = if ends_in_slash base then base else base <> "/"
