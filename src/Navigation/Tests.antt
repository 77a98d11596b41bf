-- ===== src/Navigation/Tests.antt =====
-- Runs of the menu and of the guard.
use containerhub.Prelude.{◌≡◌, refl, true, false, none, some, ◌===◌}
use containerhub.Prelude.Text.{strip_prefix}
use containerhub.Navigation.{
  Link, Route, Visitor, get_icon_for_route_name, login_destination, before_each, pass, to_login,
  to_address,
}
use containerhub.Navigation.Guard.{menu_opens, login_returns}

icon_of_nodes : get_icon_for_route_name "nodes" ≡ some "mdi-server-network"
unfolding get_icon_for_route_name
icon_of_nodes = refl

elsewhere : login_destination (some "//example.org") ≡ "/"
unfolding login_destination strip_prefix
elsewhere = refl

abbrev viewer : Visitor
viewer = record { authenticated = true; has_permission = λ p. p === "DOCKER_VIEW" }

abbrev stranger : Visitor
stranger = record { authenticated = false; has_permission = λ _. false }

abbrev stacks_link : Link
stacks_link = record {
  label = "app.stacks";
  target = "stacks";
  icon = "mdi-layers-triple";
  gallery = true;
  permission = some "DOCKER_VIEW";
}

abbrev stacks : Route
stacks = record {
  path = "/stacks";
  name = "stacks";
  meta = record {
    title = some "stacks.title";
    favicon = none;
    requires_auth = true;
    needs = some "DOCKER_VIEW";
  };
}

abbrev login : Route
login = record {
  path = "/login";
  name = "Login";
  meta = record { title = some "auth.signIn"; favicon = none; requires_auth = false; needs = none };
}

menu_opens_example : before_each viewer "/stacks" none stacks ≡ pass
menu_opens_example = menu_opens viewer 0 stacks_link stacks "/stacks" none refl refl refl refl

login_returns_example :
    (before_each stranger "/stacks" none stacks ≡ to_login "/stacks")
    × (before_each stranger "/login" (some "/stacks") login ≡ pass)
    × before_each viewer "/login" (some "/stacks") login ≡ to_address "/stacks"
unfolding strip_prefix
login_returns_example =
    login_returns stranger viewer 5 4 stacks login "/stacks" "/login" none refl refl refl refl refl
      refl
