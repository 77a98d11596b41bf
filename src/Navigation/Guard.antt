-- ===== src/Navigation/Guard.antt =====
-- The guard of the router: whom it lets in, and where it sends the others.
use Prim.Native.String.{String}
use containerhub.Prelude.{
  ℕ, zero, suc, ◌≡◌, refl, ◌∙◌, sym, ap, Bool, true, false, ◌&&◌, not, Option, none, some, List, [],
  ◌∷◌, ◌++◌, find, all, get_elem?, if◌then◌else◌, ◌===◌, eq_iff, is_some, arith, &&-eq-true,
}
use containerhub.Prelude.Text.{strip_prefix}
use containerhub.Navigation.{
  Link, Group, Route, Visitor, menu, app_routes, before_each, login_destination, lacks, pass,
  to_login, to_address,
}

-- The links that the menu shows below its groups.
abbrev links_of : List Group → List Link
links_of [] = []
links_of (group ∷ groups) = group.children ++ links_of groups

abbrev pub route_named : String → Option Route
route_named name = find (λ route. route.name === name) app_routes

abbrev same_permission : Option String → Option String → Bool
same_permission none none = true
same_permission (some p) (some q) = p === q
same_permission _ _ = false

same_permission_lem : (p q : Option String) → same_permission p q ≡ true → p ≡ q
same_permission_lem none none h = refl
same_permission_lem (some p) (some q) h = ap some ((eq_iff p q).0 h)
same_permission_lem none (some q) h = cc
same_permission_lem (some p) none h = cc

abbrev agrees_with : Link → Option Route → Bool
agrees_with link none = true
agrees_with link (some route) =
    same_permission link.permission route.meta.needs && not (route.name === "Login")

all-get_elem? {ℓ} :
    {A : Type ℓ} (p : A → Bool) (xs : List A) (i : ℕ) (x : A)
    → all p xs ≡ true
    → get_elem? xs i ≡ some x
    → p x ≡ true
all-get_elem? p [] i x h e = cc
all-get_elem? p (y ∷ xs) zero x h e =
    let same : y ≡ x = cc in ap p (sym same) ∙ (&&-eq-true (p y) (all p xs) h).0
all-get_elem? p (y ∷ xs) (suc i) x h e = all-get_elem? p xs i x (&&-eq-true (p y) (all p xs) h).1 e

menu_agrees : all (λ link. agrees_with link (route_named link.target)) (links_of menu) ≡ true
menu_agrees = refl

lets_in :
    (visitor : Visitor) (path : String) (redirect : Option String) (route : Route)
    → visitor.authenticated ≡ true
    → lacks visitor route.meta.needs ≡ false
    → (route.name === "Login") ≡ false
    → before_each visitor path redirect route ≡ pass
unfolding before_each
lets_in visitor path redirect route a l n = rw (a, l, n) (ground arith)

not_login : (b : Bool) → not b ≡ true → b ≡ false
not_login b h = ground arith

-- A link of the menu, by its place, that leads to a route of the program, lets in every visitor who is
-- signed in and holds the permission that the link is shown for: nobody is sent away from a page that
-- the menu offers.
pub menu_opens :
    (visitor : Visitor) (i : ℕ) (link : Link) (route : Route) (path : String)
    (redirect : Option String)
    → get_elem? (links_of menu) i ≡ some link
    → route_named link.target ≡ some route
    → visitor.authenticated ≡ true
    → lacks visitor link.permission ≡ false
    → before_each visitor path redirect route ≡ pass
menu_opens visitor i link route path redirect at found signed holds =
    let fits =
      all-get_elem? (λ (l : Link). agrees_with l (route_named l.target)) (links_of menu) i link
        menu_agrees at in
    let both = &&-eq-true _ _ (rw found at fits) in
    let needs = same_permission_lem link.permission route.meta.needs both.0 in
    lets_in visitor path redirect route signed (rw needs at holds)
      (not_login (route.name === "Login") both.1)

abbrev closed_to_strangers : Route → Bool
closed_to_strangers route =
    if route.name === "Login"
    then not (is_some route.meta.needs) && not route.meta.requires_auth
    else route.meta.requires_auth

routes_closed : all closed_to_strangers app_routes ≡ true
routes_closed = refl

is_open :
    (login : Route)
    → not (is_some login.meta.needs) && not login.meta.requires_auth ≡ true
    → (login.meta.needs ≡ none) × (login.meta.requires_auth ≡ false)
is_open login h = ground arith

opens_login :
    (visitor : Visitor) (here path : String) (login : Route)
    → (login.name === "Login") ≡ true
    → login.meta.needs ≡ none
    → login.meta.requires_auth ≡ false
    → before_each visitor here (some path) login
      ≡ (if visitor.authenticated then to_address (login_destination (some path)) else pass)
unfolding before_each
opens_login visitor here path login n p a = rw (a, p, n) refl

closes :
    (visitor : Visitor) (path : String) (redirect : Option String) (route : Route)
    → route.meta.requires_auth ≡ true
    → visitor.authenticated ≡ false
    → before_each visitor path redirect route ≡ to_login path
unfolding before_each
closes visitor path redirect route a s = rw (a, s) refl

-- An address of this site: it begins with one slash, not two.
abbrev pub is_local : String → Bool
is_local path = is_some (strip_prefix "/" path) && not (is_some (strip_prefix "//" path))

-- Whoever is not signed in is sent from every page among the routes of this repository but the login
-- page to the login page (the routes of the identity library are not among them), which lets everybody in that is not signed in; once signed in, the visitor is sent from there
-- back to the address that was asked for, if it is an address of this site, and to the first page
-- otherwise.
pub login_returns :
    (stranger member : Visitor) (i j : ℕ) (route login : Route) (path here : String)
    (redirect : Option String)
    → get_elem? app_routes i ≡ some route
    → (route.name === "Login") ≡ false
    → get_elem? app_routes j ≡ some login
    → (login.name === "Login") ≡ true
    → stranger.authenticated ≡ false
    → member.authenticated ≡ true
    → (before_each stranger path redirect route ≡ to_login path)
      × (before_each stranger here (some path) login ≡ pass)
      × before_each member here (some path) login ≡ to_address (if is_local path then path else "/")
unfolding login_destination
login_returns stranger member i j route login path here redirect at other at' is_login s m =
    let closed = all-get_elem? closed_to_strangers app_routes i route routes_closed at in
    let opened = all-get_elem? closed_to_strangers app_routes j login routes_closed at' in
    let (needs, free) = is_open login (rw is_login at opened) in
    (
      closes stranger path redirect route (rw other at closed) s,
      rw (opens_login stranger here path login is_login needs free, s) refl,
      rw (opens_login member here path login is_login needs free, m) refl,
    )
