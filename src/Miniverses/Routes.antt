-- ===== src/Miniverses/Routes.antt =====
-- What the routes of the proxy send each host name to.
use miniverse_backend.Base.{
  ◌≡◌, refl, Option, none, some, List, [], ◌∷◌, ◌++◌, str, Text, ◌==◌, if◌then◌else◌, arith,
}
use miniverse_backend.Base.Dict.{insert, lookup, lookup-insert}
use miniverse_backend.Models.{Miniverse}
use miniverse_backend.Settings.{Settings}
use miniverse_backend.Miniverses.Proxy.{
  Routes, get, route_key, route_target, routes_onto, generate_router_routes,
}

-- The address of the container of the last miniverse whose subdomain, followed by a dot and the domain, is the
-- host name asked for.
abbrev pub last_owner : Settings → Text → List Miniverse → Option Text → Option Text
last_owner settings k [] otherwise = otherwise
last_owner settings k (m ∷ ms) otherwise = last_owner settings k ms (
    if (m.subdomain ++ (str "." ++ settings.domain_name)) == k
    then some (str "miniverse-" ++ (m.id ++ str ":25565"))
    else otherwise)

get-routes_onto :
    (settings : Settings) (k : Text) (ms : List Miniverse) (d : Routes)
    → get k (routes_onto settings d ms) ≡ last_owner settings k ms (get k d)
unfolding routes_onto
get-routes_onto settings k [] d = refl
get-routes_onto settings k (m ∷ ms) d = ground (
  arith,
  get-routes_onto settings k ms (insert (route_key settings m.subdomain) (route_target m.id) d),
  lookup-insert k (route_key settings m.subdomain) (route_target m.id) d,
)

-- A host name is routed to port 25565 of the container `miniverse-<id>` of the last miniverse in the list whose
-- subdomain, a dot and the domain make that name, and has no route if there is none: of two miniverses with
-- one subdomain the earlier one is not reachable.
pub get-generate_router_routes :
    (settings : Settings) (k : Text) (ms : List Miniverse)
    → get k (generate_router_routes settings ms) ≡ last_owner settings k ms none
unfolding generate_router_routes lookup
get-generate_router_routes settings k ms = get-routes_onto settings k ms []
