-- ===== src/Registry/Tests.antt =====
-- Runs of the reading of a registry.
use Prim.Native.String.{String}
use containerhub.Prelude.{
  ℕ, ◌≡◌, refl, ap, sym, ◌∙◌, Bool, true, false, none, some, [], ◌∷◌, if◌then◌else◌, ◌===◌, Outcome,
  ok, throw, error, arith,
}
use containerhub.Prelude.Text.{cut_last}
use containerhub.Registry.{Url, Page, Gathered, same_site, link_of, next_link, read_pages, nothing}
use containerhub.Registry.Pages.{reads_pages_once, reads_pages_end, SoundWithin, contains}
use containerhub.Registry.Images.{
  encoded_repository, registry_list, fetch_project_tags, compressed_size_of, base_address,
}

link_found : next_link "<http://a/b?x=1>; REL=\"next\", <c>; rel=last" ≡ some "http://a/b?x=1"
unfolding next_link
link_found = refl

link_later : next_link "<c>; rel=last, <d> ;rel=next" ≡ some "d"
unfolding next_link
link_later = refl

no_link : next_link "<c>; rel=prev" ≡ none
unfolding next_link
no_link = refl

abbrev page_url : String → Url
page_url href = record {
  href = href;
  origin = "http://r";
  pathname = "/tags";
  username = "";
  password = "";
}

abbrev first : Url
first = page_url "p1"

-- Two pages, the second of which leads nowhere.
abbrev serve : Url → Outcome (Page String ℕ)
serve url =
    if url.href === "p1"
    then ok (record { listed = some ("a" ∷ "b" ∷ []); others = 7; link = some "<p2>; rel=next" })
    else ok (record { listed = some ("c" ∷ []); others = 8; link = none })

-- Every link leads to the second page.
abbrev resolve : String → Url → Outcome Url
resolve link url = if link === "away" then throw (error "bad") else ok (page_url link)

two_pages :
    registry_list serve resolve 5 first
    ≡ some (ok (record { entries = some ("a" ∷ "b" ∷ "c" ∷ []); others = 7 }))
unfolding registry_list read_pages next_link
two_pages = refl

abbrev circle : Url → Outcome (Page String ℕ)
circle url = ok (record { listed = none; others = 7; link = some "<p1>; rel=next" })

loop_refused :
    fetch_project_tags circle resolve 5 first
    ≡ some (throw (error "Invalid GitLab pagination link"))
unfolding fetch_project_tags read_pages next_link
loop_refused = refl

bad_repository :
    encoded_repository (λ s. s) "a/../b"
    ≡ throw (record { message = "valid repository is required"; status_code = some 400 })
unfolding encoded_repository
bad_repository = refl

unknown_size :
    compressed_size_of (record {
      schema_version = none;
      media_type = none;
      config_size = some 3;
      layers = some (some 4 ∷ none ∷ []);
      manifests = none;
    })
    ≡ none
unfolding compressed_size_of
unknown_size = refl

slash_added : base_address "http://r/v2" ≡ "http://r/v2/"
unfolding base_address cut_last
slash_added = refl

reads_pages_once_example :
    SoundWithin serve first (read_pages serve resolve (error "x") first 3 first nothing)
reads_pages_once_example = reads_pages_once serve resolve (error "x") first 3 refl

abbrev last_page : Page String ℕ
last_page = record { listed = some ("c" ∷ []); others = 8; link = none }

abbrev first_page : Page String ℕ
first_page = record { listed = some ("a" ∷ "b" ∷ []); others = 7; link = some "<p2>; rel=next" }

-- The only link of the two pages.
only_link :
    (at_first : Bool) (page : Page String ℕ) (link : String)
    → (if at_first then ok first_page else ok last_page) ≡ ok page
    → link_of page ≡ some link
    → link ≡ "p2"
unfolding next_link
only_link true page link served l =
    let same : first_page ≡ page = cc in
    let found : link_of first_page ≡ some link = ap link_of same ∙ l in cc
only_link false page link served l =
    let same : last_page ≡ page = cc in
    let found : link_of last_page ≡ some link = ap link_of same ∙ l in absurd cc

covered :
    (url next : Url) (page : Page String ℕ) (link : String)
    → contains url.href ("p1" ∷ "p2" ∷ []) ≡ true
    → serve url ≡ ok page
    → link_of page ≡ some link
    → resolve link url ≡ ok next
    → same_site first next ≡ true
    → contains next.href ("p1" ∷ "p2" ∷ []) ≡ true
covered url next page link c served l resolved h =
    let second = only_link (url.href === "p1") page link served l in
    let there : resolve "p2" url ≡ ok next = ap (λ l. resolve l url) (sym second) ∙ resolved in
    let same : page_url "p2" ≡ next = cc in rw (← same) refl

reads_pages_end_example :
    (o : Outcome (Gathered String)) × (read_pages serve resolve (error "x") first 3 first nothing
      ≡ some o)
reads_pages_end_example =
    reads_pages_end serve resolve (error "x") first ("p1" ∷ "p2" ∷ []) 3 covered refl refl
      (omega arith)
