-- ===== src/Registry/Pages.antt =====
-- The loops over linked pages of RegistryService.ts and GitLabService.ts: they stay on the site, read no
-- page twice, and lose nothing.
use Prim.Native.String.{String}
use containerhub.Prelude.{
  ℕ, zero, suc, ◌+◌, ◌≤◌, ◌<◌, ◌≡◌, refl, sym, ap, Bool, true, false, ◌&&◌, not, Option, none, some,
  List, [], ◌∷◌, ◌++◌, length, any, all, if◌then◌else◌, ◌===◌, ◌otherwise◌, Outcome, Fault, ok,
  throw, >>=-eq-ok, require, require-eq-ok, arith, Bool-cases, eq_iff, eq_refl, inl, inr,
}
use mathlib.Core.Path.{subst}
use containerhub.Registry.{
  Url, Page, Gathered, same_site, was_visited, link_of, next_url, follow, gather, read_page,
  read_pages, nothing,
}

-- No address stands twice.
abbrev pub distinct : List Url → Bool
distinct [] = true
distinct (url ∷ urls) = not (was_visited url urls) && distinct urls

not-eq-true : (b : Bool) → not b ≡ true → b ≡ false
not-eq-true b h = ground arith

abbrev pub contains : String → List String → Bool
contains text texts = any (λ t. t === text) texts

-- How many addresses have not been visited.
abbrev remaining : List Url → List String → ℕ
remaining visited [] = 0
remaining visited (text ∷ texts) =
    let rest = remaining visited texts in
    if any (λ (v : Url). v.href === text) visited then rest else suc rest

remaining-le : (visited : List Url) (texts : List String) → remaining visited texts ≤ length texts
remaining-le visited [] = omega arith
remaining-le visited (t ∷ ts) = ground (arith, remaining-le visited ts)

remaining_mono :
    (url : Url) (visited : List Url) (texts : List String)
    → remaining (url ∷ visited) texts ≤ remaining visited texts
remaining_mono url visited [] = omega arith
remaining_mono url visited (t ∷ ts) = ground (arith, remaining_mono url visited ts)

remaining-visit :
    (url : Url) (visited : List Url) (texts : List String)
    → was_visited url visited ≡ false
    → contains url.href texts ≡ true
    → remaining (url ∷ visited) texts + 1 ≤ remaining visited texts
remaining-visit url visited [] fresh h = cc
remaining-visit url visited (t ∷ ts) fresh h = elim (Bool-cases (t === url.href)) [
  | inl here ↦
      let same : t ≡ url.href = (eq_iff t url.href).0 here in
      rw (same, fresh, eq_refl url.href) (omega (arith, remaining_mono url visited ts))
  | inr there ↦
      ground (arith, remaining-visit url visited ts fresh, eq_iff t url.href, eq_iff url.href t)
]

module _ {E O : Type 0} (fetch : Url → Outcome (Page E O)) where
  abbrev entries_of : Outcome (Page E O) → List E
  entries_of (throw fault) = []
  entries_of (ok page) = page.listed otherwise []

  -- The entries of the pages at addresses, the latest of which comes first.
  abbrev pub entries_at : List Url → List E
  entries_at [] = []
  entries_at (url ∷ urls) = entries_at urls ++ entries_of (fetch url)

  module _ (resolve : String → Url → Outcome Url) (invalid : Fault) (first : Url) where
    record IsGathered (g : Gathered E) : Type 0 where
      pub once : distinct g.visited ≡ true
      pub on_site : all (same_site first) g.visited ≡ true
      pub complete : g.entries ≡ entries_at g.visited

    -- Where a link of a page leads, if it has one: to an address of the site.
    abbrev Leads : Option String → Url → Option Url → Type 0
    Leads header url none = Unit
    Leads header url (some next) =
        (link : String) × (header ≡ some link)
        × (resolve link url ≡ ok next)
        × (same_site first next ≡ true)

    -- An address of the site that the page at another one led to.
    abbrev Reached : Url → Option Url → Type 0
    Reached url none = Unit
    Reached url (some next) =
        (page : Page E O) × (link : String) × (fetch url ≡ ok page)
        × (link_of page ≡ some link)
        × (resolve link url ≡ ok next)
        × (same_site first next ≡ true)

    Leads-Reached :
        (url : Url) (page : Page E O) (next : Option Url)
        → fetch url ≡ ok page
        → Leads (link_of page) url next
        → Reached url next
    Leads-Reached url page none fetched l = tt
    Leads-Reached url page (some next) fetched (link, at, resolved, good) =
        (page, link, fetched, at, resolved, good)

    follow-on_site :
        (link : Option String) (url : Url) (g g' : Gathered E) (next : Option Url)
        → follow fetch resolve invalid first link url g ≡ ok (next, g')
        → (g ≡ g') × Leads link url next
    unfolding follow next_url
    follow-on_site none url g g' none e = (cc, tt)
    follow-on_site none url g g' (some next) e = absurd cc
    follow-on_site (some link) url g g' none e =
        let (found, at, rest) = >>=-eq-ok (next_url fetch resolve invalid first link url) _ e in cc
    follow-on_site (some link) url g g' (some next) e =
        let (found, at, rest) = >>=-eq-ok (next_url fetch resolve invalid first link url) _ e in
        let (to, resolved, tested) = >>=-eq-ok (resolve link url) _ at in
        let (u, on_site, same) = >>=-eq-ok (require (same_site first to) invalid) _ tested in
        let good = require-eq-ok (same_site first to) invalid u on_site in
        let here : to ≡ next = cc in
        (
          cc,
          (
            link,
            refl,
            subst (λ (n : Url). resolve link url ≡ ok n) here resolved,
            subst (λ (n : Url). same_site first n ≡ true) here good,
          ),
        )

    read_page-IsGathered :
        (url : Url) (g g' : Gathered E) (next : Option Url)
        → same_site first url ≡ true
        → IsGathered g
        → read_page fetch resolve invalid first url g ≡ ok (next, g')
        → IsGathered g'
          × Reached url next
          × (was_visited url g.visited ≡ false)
          × (g'.visited ≡ url ∷ g.visited)
    unfolding read_page gather
    read_page-IsGathered url g g' next h s e =
        let (u, tested, e') = >>=-eq-ok (require (not (was_visited url g.visited)) invalid) _ e in
        let fresh = require-eq-ok (not (was_visited url g.visited)) invalid u tested in
        let (page, fetched, e'') = >>=-eq-ok (fetch url) _ e' in
        let (same, leads) = follow-on_site (link_of page) url _ g' next e'' in
        let kept : IsGathered (gather fetch resolve invalid first url page g) = record {
          once = rw (fresh, s.once) refl;
          on_site = rw (h, s.on_site) refl;
          complete = rw (s.complete, fetched) refl;
        } in
        (
          subst IsGathered same kept,
          Leads-Reached url page next fetched leads,
          not-eq-true _ fresh,
          sym (ap (λ (x : Gathered E). x.visited) same),
        )

    abbrev Result : Outcome (Gathered E) → Type 0
    Result (throw fault) = Unit
    Result (ok g) = IsGathered g

    -- What rounds that may not be enough show.
    abbrev Partial : Option (Outcome (Gathered E)) → Type 0
    Partial none = Unit
    Partial (some o) = Result o

    next_round :
        (fuel : ℕ) (url : Url) (g : Gathered E) (o : Outcome (Option Url × Gathered E))
        → same_site first url ≡ true
        → IsGathered g
        → ((next : Url) (more : Gathered E)
            → same_site first next ≡ true
            → IsGathered more
            → Partial (read_pages fetch resolve invalid first fuel next more))
        → read_page fetch resolve invalid first url g ≡ o
        → Partial (read_pages fetch resolve invalid first (suc fuel) url g)
    unfolding read_pages
    next_round fuel url g (throw fault) h s later r = rw (r, read_pages) tt
    next_round fuel url g (ok (none, done)) h s later r =
        rw (r, read_pages) (read_page-IsGathered url g done none h s r).0
    next_round fuel url g (ok (some next, more)) h s later r =
        let (kept, (page, link, fetched, at, resolved, leads), fresh, seen) =
          read_page-IsGathered url g more (some next) h s r in
        rw (r, read_pages) (later next more leads kept)

    read_pages-Partial :
        (fuel : ℕ) (url : Url) (g : Gathered E)
        → same_site first url ≡ true
        → IsGathered g
        → Partial (read_pages fetch resolve invalid first fuel url g)
    unfolding read_pages
    read_pages-Partial zero url g h s = tt
    read_pages-Partial (suc fuel) url g h s =
        next_round fuel url g (read_page fetch resolve invalid first url g) h s
          (λ next more h' s'. read_pages-Partial fuel next more h' s') refl

    module _ (sites : List String) where
      -- The texts of a list are closed under the links of the site's pages.
      abbrev Covers : Type 0
      Covers =
          (url next : Url) (page : Page E O) (link : String)
          → contains url.href sites ≡ true
          → fetch url ≡ ok page
          → link_of page ≡ some link
          → resolve link url ≡ ok next
          → same_site first next ≡ true
          → contains next.href sites ≡ true

      abbrev Ends : ℕ → Url → Gathered E → Type 0
      Ends fuel url g =
          (o : Outcome (Gathered E)) × (read_pages fetch resolve invalid first fuel url g ≡ some o)
          × Result o

      -- A round, with what is known of the later ones.
      one_round :
          (fuel : ℕ) (url : Url) (g : Gathered E) (o : Outcome (Option Url × Gathered E))
          → same_site first url ≡ true
          → contains url.href sites ≡ true
          → Covers
          → IsGathered g
          → remaining g.visited sites < suc fuel
          → ((next : Url) (more : Gathered E)
              → same_site first next ≡ true
              → contains next.href sites ≡ true
              → IsGathered more
              → remaining more.visited sites < fuel
              → Ends fuel next more)
          → read_page fetch resolve invalid first url g ≡ o
          → Ends (suc fuel) url g
      unfolding read_pages
      one_round fuel url g (throw fault) h c all_sites s f later r =
          (throw fault, rw (r, read_pages), tt)
      one_round fuel url g (ok (none, done)) h c all_sites s f later r =
          (ok done, rw (r, read_pages), (read_page-IsGathered url g done none h s r).0)
      one_round fuel url g (ok (some next, more)) h c all_sites s f later r =
          let (kept, (page, link, fetched, at, resolved, leads), fresh, seen) =
            read_page-IsGathered url g more (some next) h s r in
          let fewer = remaining-visit url g.visited sites fresh c in
          let (o, ended, good) =
            later next more leads (all_sites url next page link c fetched at resolved leads) kept
              (rw seen (omega (arith, fewer))) in
          (o, rw (r, read_pages) ended, good)

      read_pages_stop :
          (fuel : ℕ) (url : Url) (g : Gathered E)
          → Covers
          → same_site first url ≡ true
          → contains url.href sites ≡ true
          → IsGathered g
          → remaining g.visited sites < fuel
          → Ends fuel url g
      read_pages_stop zero url g c h here s f = absurd (omega arith)
      read_pages_stop (suc fuel) url g c h here s f =
          one_round fuel url g (read_page fetch resolve invalid first url g) h here c s f
            (λ next more h' here' s' f'. read_pages_stop fuel next more c h' here' s' f') refl

-- What is known of a list that was read.
abbrev pub Sound : {E O : Type 0} → (Url → Outcome (Page E O)) → Url → Outcome (Gathered E) → Type 0
Sound fetch first (throw fault) = Unit
Sound fetch first (ok g) =
    (distinct g.visited ≡ true)
    × (all (same_site first) g.visited ≡ true)
    × (g.entries ≡ entries_at fetch g.visited)

-- The same of a reading in a number of rounds that may not be enough.
abbrev pub SoundWithin :
    {E O : Type 0} → (Url → Outcome (Page E O)) → Url → Option (Outcome (Gathered E)) → Type 0
SoundWithin fetch first none = Unit
SoundWithin fetch first (some o) = Sound fetch first o

module _ {E O : Type 0} (fetch : Url → Outcome (Page E O)) (resolve : String → Url → Outcome Url)
    (invalid : Fault) (first : Url) where
  nothing-IsGathered : IsGathered fetch resolve invalid first nothing
  nothing-IsGathered = record { once = refl; on_site = refl; complete = refl }

  Result-Sound :
      (o : Outcome (Gathered E)) → Result fetch resolve invalid first o → Sound fetch first o
  Result-Sound (throw fault) s = tt
  Result-Sound (ok g) s = (s.once, s.on_site, s.complete)

  Partial-Sound :
      (o : Option (Outcome (Gathered E)))
      → Partial fetch resolve invalid first o
      → SoundWithin fetch first o
  Partial-Sound none s = tt
  Partial-Sound (some o) s = Result-Sound o s

-- In whatever number of rounds, the reading of linked pages from an address without credentials has
-- not ended, or ends in an error, or the pages that were read have different addresses, all of the
-- origin and path of the first and without credentials, and the list holds exactly the entries of
-- these pages in the order of reading.
pub reads_pages_once :
    {E O : Type 0} (fetch : Url → Outcome (Page E O)) (resolve : String → Url → Outcome Url)
    (invalid : Fault) (first : Url) (rounds : ℕ)
    → same_site first first ≡ true
    → SoundWithin fetch first (read_pages fetch resolve invalid first rounds first nothing)
reads_pages_once fetch resolve invalid first rounds h =
    Partial-Sound fetch resolve invalid first
      (read_pages fetch resolve invalid first rounds first nothing)
      (read_pages-Partial fetch resolve invalid first rounds first nothing h
        (nothing-IsGathered fetch resolve invalid first))

-- If a finite list of addresses holds the first one, and every address of its origin and path that a
-- link on the page at one of them leads to, the reading from the first one, which has no
-- credentials, ends, in at most one more round than there are addresses in the list.
pub reads_pages_end :
    {E O : Type 0} (fetch : Url → Outcome (Page E O)) (resolve : String → Url → Outcome Url)
    (invalid : Fault) (first : Url) (sites : List String) (fuel : ℕ)
    → ((url next : Url) (page : Page E O) (link : String)
        → contains url.href sites ≡ true
        → fetch url ≡ ok page
        → link_of page ≡ some link
        → resolve link url ≡ ok next
        → same_site first next ≡ true
        → contains next.href sites ≡ true)
    → contains first.href sites ≡ true
    → same_site first first ≡ true
    → length sites < fuel
    → (o : Outcome (Gathered E)) × (read_pages fetch resolve invalid first fuel first nothing
        ≡ some o)
reads_pages_end fetch resolve invalid first sites fuel c here h f =
    let few = remaining-le [] sites in
    let (o, ended, good) =
      read_pages_stop fetch resolve invalid first sites fuel first nothing c h here
        (nothing-IsGathered fetch resolve invalid first) (omega (arith, few)) in
    (o, ended)
