-- ===== src/Navigation.antt =====
-- packages/containerhub-front/src/navigation.ts and router/index.ts: the menu, the routes and the guard
-- that is asked before each change of page. The routes of the library for identities, and the pages
-- themselves, are not of this repository.
mod Tests
pub mod Guard
use Prim.Native.String.{String}
use containerhub.Prelude.{
  Bool, true, false, ◌&&◌, ◌||◌, not, Option, none, some, List, [], ◌∷◌, ◌++◌, map, filter, find,
  if◌then◌else◌, ◌===◌, is_some,
}
use containerhub.Prelude.Text.{◌<>◌, strip_prefix}

-- An entry of the menu that leads to a page.
pub record Link : Type 0 where
  pub label : String
  pub target : String
  pub icon : String
  pub gallery : Bool
  pub permission : Option String

-- An entry of the menu: a link of its own, or links below it.
pub record Group : Type 0 where
  pub caption : String
  pub own_target : Option String
  pub own_icon : String
  pub own_gallery : Bool
  pub children : List Link

abbrev to : (label target icon permission : String) → Link
to label target icon permission = record {
  label = label;
  target = target;
  icon = icon;
  gallery = true;
  permission = some permission;
}

abbrev pub menu : List Group
menu =
    record {
      caption = "app.home";
      own_target = some "home";
      own_icon = "mdi-home";
      own_gallery = false;
      children = [];
    }
    ∷ record {
      caption = "menu.docker";
      own_target = none;
      own_icon = "mdi-docker";
      own_gallery = true;
      children =
          to "app.stacks" "stacks" "mdi-layers-triple" "DOCKER_VIEW"
          ∷ to "app.services" "services" "mdi-docker" "DOCKER_VIEW"
          ∷ to "app.nodes" "nodes" "mdi-server-network" "DOCKER_NODES_FETCH"
          ∷ to "app.networks" "networks" "mdi-lan" "DOCKER_NETWORK_VIEW"
          ∷ to "app.registryImages" "registry-images" "mdi-package-variant-closed" "DOCKER_VIEW"
          ∷ to "app.gitLabProjects" "gitlab-projects" "mdi-gitlab" "DOCKER_VIEW"
          ∷ [];
    }
    ∷ record {
      caption = "menu.monitorization";
      own_target = none;
      own_icon = "mdi-chart-line";
      own_gallery = true;
      children =
          to "cluster.title" "cluster" "mdi-server-network" "DOCKER_VIEW"
          ∷ to "monitoring.title" "monitoring" "mdi-chart-line" "DOCKER_VIEW"
          ∷ to "tasksMonitorization.title" "tasks-monitorization" "mdi-history" "DOCKER_VIEW"
          ∷ to "app.ghostContainers" "ghost-containers" "mdi-ghost" "DOCKER_VIEW"
          ∷ [];
    }
    ∷ record {
      caption = "menu.administration";
      own_target = none;
      own_icon = "mdi-shield-account";
      own_gallery = true;
      children =
          to "user.menu" "CrudUser" "mdi-account-group" "user:manage"
          ∷ to "role.menu" "CrudRole" "mdi-shield-account" "role:manage"
          ∷ to "userapikey.menu" "CrudUserApiKey" "mdi-table-key" "userApiKey:manage"
          ∷ to "usersession.menu" "UserSessionCrudPage" "mdi-history" "usersession:manage"
          ∷ to "audit.menu" "AuditCrudPage" "mdi-police-badge" "audit:manage"
          ∷ to "app.settings" "settings" "mdi-cog" "SETTINGS_SHOW"
          ∷ [];
    }
    ∷ []

abbrev icon_of_child : String → List Link → Option String
icon_of_child name [] = none
icon_of_child name (link ∷ links) =
    if link.target === name then some link.icon else icon_of_child name links

abbrev leads_to : String → Option String → Bool
leads_to name none = false
leads_to name (some target) = target === name

abbrev icon_in : String → List Group → Option String
icon_in name [] = none
icon_in name (group ∷ groups) =
    if leads_to name group.own_target
    then some group.own_icon
    else elim (icon_of_child name group.children) [
      | some icon ↦ some icon
      | none ↦ icon_in name groups
    ]

unfoldable pub get_icon_for_route_name : String → Option String
get_icon_for_route_name name = icon_in name menu

-- What a route says of its page.
pub record Meta : Type 0 where
  pub title : Option String
  pub favicon : Option String
  pub requires_auth : Bool
  pub needs : Option String

pub record Route : Type 0 where
  pub path : String
  pub name : String
  pub meta : Meta

abbrev page : (path name : String) (title : Option String) (permission : String) → Route
page path name title permission = record {
  path = path;
  name = name;
  meta = record { title = title; favicon = none; requires_auth = true; needs = some permission };
}

abbrev with_favicon : String → Route → Route
with_favicon favicon route = record route { meta = record route.meta { favicon = some favicon } }

abbrev pub app_routes : List Route
app_routes =
    page "/monitoring" "monitoring" (some "monitoring.title") "DOCKER_VIEW"
    ∷ page "/monitoring/:id" "monitoring-history" (some "monitoring.history") "DOCKER_VIEW"
    ∷ page "/tasks-monitorization" "tasks-monitorization" (some "tasksMonitorization.title")
        "DOCKER_VIEW"
    ∷ record {
      path = "/";
      name = "home";
      meta = record { title = none; favicon = none; requires_auth = true; needs = none };
    }
    ∷ record {
      path = "/login";
      name = "Login";
      meta = record {
        title = some "auth.signIn";
        favicon = none;
        requires_auth = false;
        needs = none;
      };
    }
    ∷ page "/stacks" "stacks" (some "stacks.title") "DOCKER_VIEW"
    ∷ page "/nodes" "nodes" (some "nodes.title") "DOCKER_NODES_FETCH"
    ∷ page "/ghost-containers" "ghost-containers" (some "ghostContainers.title") "DOCKER_VIEW"
    ∷ page "/networks" "networks" (some "networks.title") "DOCKER_NETWORK_VIEW"
    ∷ page "/cluster" "cluster" (some "cluster.title") "DOCKER_VIEW"
    ∷ page "/registry-images" "registry-images" (some "registryImages.title") "DOCKER_VIEW"
    ∷ page "/gitlab-projects" "gitlab-projects" (some "gitLabProjects.title") "DOCKER_VIEW"
    ∷ page "/services" "services" (some "services.title") "DOCKER_VIEW"
    ∷ with_favicon "/file-document.svg"
        (page "/inspect/:taskId" "task-inspect" (some "taskInspect.title") "DOCKER_VIEW")
    ∷ with_favicon "/poll.svg"
        (page "/statistics/:taskId" "task-statistics" (some "taskStatistics.title") "DOCKER_VIEW")
    ∷ page "/logs/:taskId" "task-logs" (some "taskLogs.title") "DOCKER_LOGS"
    ∷ with_favicon "/console.svg"
        (page "/terminal/:taskId" "task-terminal" (some "taskTerminal.title") "DOCKER_TERMINAL")
    ∷ page "/settings" "settings" (some "settings.title") "SETTINGS_SHOW"
    ∷ page "/crud/audit" "AuditCrudPage" (some "audit.menu") "audit:manage"
    ∷ []

-- A route of the identity library, with the `auth` of its meta, if that is a Boolean.
pub record LibraryRoute : Type 0 where
  pub route : Route
  pub auth : Option Bool

abbrev with_auth : LibraryRoute → Route
with_auth library_route = elim library_route.auth [
  | none ↦ library_route.route
  | some auth ↦ record library_route.route {
    meta = record library_route.route.meta { requires_auth = auth };
  }
]

unfoldable pub drax_routes : List LibraryRoute → List Route
drax_routes routes = map with_auth (filter (λ r. not (r.route.name === "CrudTenant")) routes)

-- The icon of the page: that of its menu entry, its own, or the program's.
unfoldable pub favicon_of : String → Meta → String
unfolding get_icon_for_route_name
favicon_of name meta =
    let own = elim meta.favicon as (λ _. String) [
      | some favicon ↦ favicon
      | none ↦ "/favicon.svg"
    ] in
    if name === "home" then own else (elim (get_icon_for_route_name name) [
      | some icon ↦ "/favicons/" <> icon <> ".svg"
      | none ↦ own
    ])

-- `redirect` is the parameter of the query, if it is a text.
unfoldable pub login_destination : Option String → String
login_destination none = "/"
login_destination (some redirect) =
    if is_some (strip_prefix "/" redirect) && not (is_some (strip_prefix "//" redirect))
    then redirect
    else "/"

-- Where the guard lets a change of page go.
pub data Verdict : Type 0 where
  pass : Verdict
  to_login : (redirect : String) → Verdict
  to_home : Verdict
  to_address : String → Verdict

-- Who asks: whether the token is valid, and the permissions that are held.
pub record Visitor : Type 0 where
  pub authenticated : Bool
  pub has_permission : String → Bool

abbrev pub lacks : Visitor → Option String → Bool
lacks visitor none = false
lacks visitor (some permission) = not (visitor.has_permission permission)

unfoldable pub before_each :
    Visitor → (full_path : String) (redirect : Option String) → Route → Verdict
unfolding login_destination
before_each visitor full_path redirect route =
    if route.meta.requires_auth && not visitor.authenticated
    then to_login full_path
    else if lacks visitor route.meta.needs
    then to_home
    else if route.name === "Login" && visitor.authenticated
    then to_address (login_destination redirect)
    else pass
