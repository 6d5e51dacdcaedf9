-- ===== src/Settings.antt =====
-- The settings of app/core/config.py that the modelled code reads, and `get_miniverse_path` of
-- app/services/miniverse_service.py.
use miniverse_backend.Base.{Option, Bool, true, false, List, ◌∷◌, ◌++◌, Text, str}

pub record Settings : Type 0 where
  pub data_path : List Text
  pub host_data_path : List Text
  pub domain_name : Text
  pub docker_network_name : Text
  pub proxy_secret : Text
  pub proxy_socks : Option Text

-- `get_miniverse_path(miniverse_id, *subpaths, from_host=…)`, for one-name arguments
unfoldable pub get_miniverse_path : Settings → Text → List Text → Bool → List Text
get_miniverse_path settings miniverse_id subpaths true =
    settings.host_data_path ++ (str "miniverses" ∷ miniverse_id ∷ subpaths)
get_miniverse_path settings miniverse_id subpaths false =
    settings.data_path ++ (str "miniverses" ∷ miniverse_id ∷ subpaths)
