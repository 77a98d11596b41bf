-- ===== src/Registry.antt =====
-- packages/containerhub-back/src/modules/: registry/services/RegistryService.ts and the reading of pages
-- of gitlab/services/GitLabService.ts. `fetch` and `new URL` are parameters.
pub mod Pages
pub mod Images
mod Tests
use Prim.Native.String.{String, [], ◌∷◌}
use Prim.Native.Char.{Char, code}
use containerhub.Prelude.{
  ℕ, zero, suc, ◌+◌, Bool, true, false, ◌&&◌, ◌||◌, not, Option, none, some, List, [], ◌∷◌, ◌++◌,
  length, any, if◌then◌else◌, ◌==◌, ◌===◌, ◌otherwise◌, Outcome, Fault, ok, throw, ◌>>=◌, ◌>>◌,
  require, error,
}
use containerhub.Prelude.Text.{cut_first, is_space, non_empty, strip_prefix, trim_start}
use containerhub.TaskInspect.{after_word}

-- What is read of an address. Two addresses are one if their texts are.
pub record Url : Type 0 where
  pub href : String
  pub origin : String
  pub pathname : String
  pub username : String
  pub password : String

-- What follows a colon of the header's first part: `\s*;\s*rel="?next"?`, whatever its case.
abbrev skip_quote : String → String
skip_quote s = elim (strip_prefix "\"" s) as (λ _. String) [ none ↦ s | some rest ↦ rest ]

abbrev is_word : String → String → Bool
is_word word s = elim (after_word word s) as (λ _. Bool) [ none ↦ false | some rest ↦ true ]

abbrev names_next : Option String → Bool
names_next none = false
names_next (some s) = is_word "next" (skip_quote s)

abbrev after_semicolon : Option String → Option String
after_semicolon none = none
after_semicolon (some s) = after_word "rel=" (trim_start s)

unfoldable pub is_next : String → Bool
unfolding after_word trim_start strip_prefix is_space
is_next s = names_next (after_semicolon (strip_prefix ";" (trim_start s)))

-- A match that begins behind an opening bracket.
abbrev link_here : Option (String × String) → Option String
link_here none = none
link_here (some (link, rest)) = if non_empty link && is_next rest then some link else none

abbrev first_of : Option String → Option String → Option String
first_of none later = later
first_of (some link) later = some link

-- `link?.match(/<([^>]+)>\s*;\s*rel="?next"?/i)?.[1]`
unfoldable pub next_link : String → Option String
unfolding is_next cut_first
next_link [] = none
next_link (c ∷ s) =
    let later = next_link s in
    if code c == b'<' then first_of (link_here (cut_first b'>' s)) later else later

-- A page: its entries, if it has any, the rest of it, and the header with the link.
pub record Page (E O : Type 0) : Type 0 where
  pub listed : Option (List E)
  pub others : O
  pub link : Option String

abbrev pub link_of : {E O : Type 0} → Page E O → Option String
link_of page = elim page.link [ none ↦ none | some header ↦ next_link header ]

abbrev pub same_site : Url → Url → Bool
same_site first next =
    next.origin === first.origin
    && next.pathname === first.pathname
    && not (non_empty next.username)
    && not (non_empty next.password)

-- What the loop has gathered: the addresses, the latest first, and the entries in their order.
pub record Gathered (E : Type 0) : Type 0 where
  pub visited : List Url
  pub entries : List E

abbrev pub was_visited : Url → List Url → Bool
was_visited url visited = any (λ (v : Url). v.href === url.href) visited

-- `resolve` is `new URL(link, url)` with its hash cleared; `invalid` is the error of a bad link.
module _ {E O : Type 0} (fetch : Url → Outcome (Page E O)) (resolve : String → Url → Outcome Url)
    (invalid : Fault) (first : Url) where
  -- The address of the page behind a link.
  unfoldable pub next_url : String → Url → Outcome Url
  next_url link url = resolve link url >>= λ next. require (same_site first next) invalid >> ok next

  -- What a page adds.
  unfoldable pub gather : Url → Page E O → Gathered E → Gathered E
  gather url page gathered = record {
    visited = url ∷ gathered.visited;
    entries = gathered.entries ++ (page.listed otherwise []);
  }

  -- Where a link leads, with what has been gathered.
  unfoldable pub follow : Option String → Url → Gathered E → Outcome (Option Url × Gathered E)
  unfolding next_url
  follow none url gathered = ok (none, gathered)
  follow (some link) url gathered = next_url link url >>= λ next. ok (some next, gathered)

  -- One round: the address of the next one, if there is one, and what has been gathered.
  unfoldable pub read_page : Url → Gathered E → Outcome (Option Url × Gathered E)
  unfolding follow gather next_link
  read_page url gathered =
      require (not (was_visited url gathered.visited)) invalid
      >> (fetch url >>= λ page. follow (link_of page) url (gather url page gathered))

  -- The loop, in as many rounds as the fuel allows.
  unfoldable pub read_pages : (fuel : ℕ) → Url → Gathered E → Option (Outcome (Gathered E))
  unfolding read_page
  read_pages zero url gathered = none
  read_pages (suc fuel) url gathered = elim (read_page url gathered) [
    | throw fault ↦ some (throw fault)
    | ok (none, done) ↦ some (ok done)
    | ok (some next, more) ↦ read_pages fuel next more
  ]

abbrev pub nothing : {E : Type 0} → Gathered E
nothing = record { visited = []; entries = [] }
