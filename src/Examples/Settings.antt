-- ===== src/Examples/Settings.antt =====
-- Runs of the properties of commands.
use Prim.Native.String.{String, ◌++◌ as ◌<>◌}
use cuirass.Prelude.{◌≡◌, refl, Bool, false, Option, none, some, List, [], ◌∷◌, if◌then◌else◌, map}
use cuirass.Prelude.Maps.{string_eq}
use cuirass.Properties.{PropertyFactory, property_prefix, new_command_properties, read_properties}
use cuirass.Properties.Caching.{Request, get_all, get_all-map}
use cuirass.Properties.Resolution.{or_else, Settings, settled, read_properties-eq-settled}

-- A configuration in which one setting is there.
abbrev bools : String → Option Bool
bools n = if string_eq.beq n "cuirass.command.default.fallback.enabled" then some false else none

abbrev factory : PropertyFactory
factory = record {
  get_string = λ n d. d;
  get_bool = λ n d. or_else (bools n) d;
  get_int = λ n d. d;
  get_duration = λ n u d. d;
  chained_bool = λ n d. or_else (bools n) d;
  chained_int = λ n d. d;
  chained_duration = λ n u d. d;
}

abbrev factory_settings : Settings factory
factory_settings = record {
  bool_at = bools;
  int_at = λ n. none;
  duration_at = λ n u. none;
  get_bool_lem = λ n d. refl;
  get_int_lem = λ n d. refl;
  get_duration_lem = λ n u d. refl;
  chained_bool_lem = λ n d. refl;
  chained_int_lem = λ n d. refl;
  chained_duration_lem = λ n u d. refl;
}

read_properties-eq-settled_example :
    read_properties "cuirass" "a" "g" factory
    ≡ settled factory factory_settings ("cuirass" <> ".command") "a" "g"
read_properties-eq-settled_example =
    read_properties-eq-settled factory factory_settings "cuirass" "a" "g"

abbrev request : String → Request String
request name = record { cfg = "file"; factory = factory; name = name; group = "g" }

abbrev requests : List (Request String)
requests = request "a" ∷ request "b" ∷ request "a" ∷ []

get_all-map_example :
    get_all requests []
    ≡ map (λ (r : Request String). new_command_properties r.factory r.name r.group) requests
unfolding property_prefix
get_all-map_example = get_all-map (λ cfg. "cuirass") requests (refl, (refl, (refl, tt)))
