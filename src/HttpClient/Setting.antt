-- ===== src/HttpClient/Setting.antt =====
-- client/http/setting_provider.go and the settings of client/http/endpoint.go: the settings of each
-- endpoint, read from a file. The file system and the yaml library are parameters.
use tiki.Base.{
  ◌≡◌, ◌≢◌, refl, ◌∙◌, sym, subst, ok_injective, List, [], ◌∷◌, Option, none, some, arith, Str,
  str_eq, str_eq_iff, if◌then◌else◌, Result, ok, ◌>>=◌, ℤ, pos, negsuc, ◌==◌,
}
use tiki.Go.Maps.{Map, get, put, get-put, UniqueKeys, put-UniqueKeys}
use tiki.Go.Strings.Laws.{Lacks}
use tiki.Middleware.Defs.{CommandConfig}
use tiki.Middleware.Circuit.{dash, default_cb_config}

pub record EndpointSetting : Type 0 where
  pub uri : Str
  pub method : Str
  pub cb_config : CommandConfig

pub record FileSettingProvider : Type 0 where
  pub path : Str
  pub setting_map : Map (Map EndpointSetting)

-- `fmt.Sprintf("%s-%s", setting.Method, setting.URI)`
unfoldable pub setting_key : EndpointSetting → Str
setting_key s = dash s.method s.uri

-- The inner loop, over the settings of one target.
unfoldable pub add_settings : Map EndpointSetting → List EndpointSetting → Map EndpointSetting
add_settings ep_map [] = ep_map
add_settings ep_map (s ∷ rest) = add_settings (put ep_map (setting_key s) s) rest

-- The outer loop, over the targets.
unfoldable pub add_targets :
    Map (Map EndpointSetting) → Map (List EndpointSetting) → Map (Map EndpointSetting)
unfolding add_settings
add_targets setting_map [] = setting_map
add_targets setting_map ((target, settings) ∷ rest) =
    add_targets (put setting_map target (add_settings [] settings)) rest

unfoldable pub new_file_setting_provider :
    (Str → Result Str)
    → (Str → Result (Map (List EndpointSetting)))
    → Str
    → Result FileSettingProvider
unfolding add_targets
new_file_setting_provider read_file unmarshal path = do
  content ← read_file path
  settings ← unmarshal content
  ok (record { path = path; setting_map = add_targets [] settings })

-- A target that is not in the file has no settings.
unfoldable pub get_settings : FileSettingProvider → Str → Map EndpointSetting
get_settings p target = elim (get p.setting_map target) [ none ↦ [] | some ep_map ↦ ep_map ]

-- The last setting of the list that has this key.
abbrev pub last_with : Str → List EndpointSetting → Option EndpointSetting
last_with key [] = none
last_with key (s ∷ rest) = elim (last_with key rest) [
  | none ↦ if str_eq (setting_key s) key then some s else none
  | some t ↦ some t
]

abbrev or_else : Option EndpointSetting → Option EndpointSetting → Option EndpointSetting
or_else none o = o
or_else (some s) o = some s

add_settings_lem :
    (m : Map EndpointSetting) (settings : List EndpointSetting) (key : Str)
    → get (add_settings m settings) key ≡ or_else (last_with key settings) (get m key)
unfolding add_settings
add_settings_lem m [] key = refl
add_settings_lem m (s ∷ rest) key =
    ground
      (arith, add_settings_lem (put m (setting_key s) s) rest key, get-put m (setting_key s) key s)

add_targets_absent :
    (m : Map (Map EndpointSetting)) (holder : Map (List EndpointSetting)) (target : Str)
    → get holder target ≡ none
    → get (add_targets m holder) target ≡ get m target
unfolding add_targets get
add_targets_absent m [] target h = refl
add_targets_absent m ((t, settings) ∷ rest) target h = ground (
  arith,
  add_targets_absent (put m t (add_settings [] settings)) rest target,
  get-put m t target (add_settings [] settings),
)

add_targets_lem :
    (m : Map (Map EndpointSetting)) (holder : Map (List EndpointSetting)) (target : Str)
    (settings : List EndpointSetting)
    → UniqueKeys holder
    → get holder target ≡ some settings
    → get (add_targets m holder) target ≡ some (add_settings [] settings)
unfolding add_targets get
add_targets_lem m [] target settings u h = cc
add_targets_lem m ((t, xs) ∷ rest) target settings u h = ground (
  arith,
  add_targets_lem (put m t (add_settings [] xs)) rest target settings u.1,
  add_targets_absent (put m t (add_settings [] xs)) rest target,
  get-put m t target (add_settings [] xs),
  str_eq_iff t target,
)

-- When the file is read and parsed, a lookup of a key in the settings of a target finds the last
-- setting of that target in the file that has the key, and nothing for a target that the file does
-- not name. The parsed file names no target twice.
pub provider_settings :
    (read_file : Str → Result Str) (unmarshal : Str → Result (Map (List EndpointSetting)))
    (path content target key : Str) (holder : Map (List EndpointSetting))
    → read_file path ≡ ok content
    → unmarshal content ≡ ok holder
    → UniqueKeys holder
    → (p : FileSettingProvider) × (new_file_setting_provider read_file unmarshal path ≡ ok p)
      × (get holder target ≡ none → get (get_settings p target) key ≡ none)
      × ((settings : List EndpointSetting)
          → get holder target ≡ some settings
          → get (get_settings p target) key ≡ last_with key settings)
unfolding new_file_setting_provider get_settings
provider_settings read_file unmarshal path content target key holder r m u = (
  record { path = path; setting_map = add_targets [] holder },
  rw (r, m),
  λ h. rw (add_targets_absent [] holder target h, get_settings) (unfold get in refl),
  λ settings h.
      rw (add_targets_lem [] holder target settings u h, get_settings)
        (add_settings_lem [] settings key ∙ drop_none (last_with key settings)),
)
  where
    drop_none : (o : Option EndpointSetting) → or_else o (get [] key) ≡ o
    drop_none none = unfold get in refl
    drop_none (some s) = refl

-- In the settings of a target no key stands twice.
add_settings-UniqueKeys :
    (m : Map EndpointSetting) (settings : List EndpointSetting)
    → UniqueKeys m
    → UniqueKeys (add_settings m settings)
unfolding add_settings
add_settings-UniqueKeys m [] u = u
add_settings-UniqueKeys m (s ∷ rest) u =
    add_settings-UniqueKeys (put m (setting_key s) s) rest (put-UniqueKeys m (setting_key s) s u)

pub get_settings-UniqueKeys :
    (read_file : Str → Result Str) (unmarshal : Str → Result (Map (List EndpointSetting)))
    (path content target : Str) (holder : Map (List EndpointSetting)) (p : FileSettingProvider)
    (settings : List EndpointSetting)
    → read_file path ≡ ok content
    → unmarshal content ≡ ok holder
    → UniqueKeys holder
    → get holder target ≡ some settings
    → new_file_setting_provider read_file unmarshal path ≡ ok p
    → UniqueKeys (get_settings p target)
unfolding new_file_setting_provider get_settings
get_settings-UniqueKeys read_file unmarshal path content target holder p settings r m u h made =
    subst (λ (f : FileSettingProvider). UniqueKeys (get_settings f target)) same
      (rw (add_targets_lem [] holder target settings u h, get_settings)
        (add_settings-UniqueKeys [] settings tt))
  where
    read :
        new_file_setting_provider read_file unmarshal path
        ≡ ok (record { path = path; setting_map = add_targets [] holder })
    read = rw (r, m)

    same : record { path = path; setting_map = add_targets [] holder } ≡ p
    same = ok_injective (sym read ∙ made)

-- The key `<method>-<uri>` determines the method and the URI, if the methods hold no dash.
pub dash-injective :
    (m m' u u' : Str) → Lacks b'-' m → Lacks b'-' m' → dash m u ≡ dash m' u' → (m ≡ m') × (u ≡ u')
dash-injective [] [] u u' l l' e = (refl, ground arith)
dash-injective [] (c ∷ m') u u' l l' e = absurd (ground arith)
dash-injective (c ∷ m) [] u u' l l' e = absurd (ground arith)
dash-injective (c ∷ m) (d ∷ m') u u' l l' e =
    let (p, q) = dash-injective m m' u u' l.1 l'.1 (ground arith) in (ground arith, q)

-- `if setting.CBConfig.X == 0`
abbrev or_default : ℤ → ℤ → ℤ
or_default (pos n) d = if n == 0 then d else pos n
or_default (negsuc n) d = negsuc n

-- The defaults that createEndpointClient fills in.
unfoldable pub with_defaults : CommandConfig → CommandConfig
unfolding default_cb_config
with_defaults c = record {
  timeout = or_default c.timeout default_cb_config.timeout;
  max_concurrent_requests =
      or_default c.max_concurrent_requests default_cb_config.max_concurrent_requests;
  request_volume_threshold =
      or_default c.request_volume_threshold default_cb_config.request_volume_threshold;
  sleep_window = or_default c.sleep_window default_cb_config.sleep_window;
  error_percent_threshold =
      or_default c.error_percent_threshold default_cb_config.error_percent_threshold;
}

abbrev pub AllSet : CommandConfig → Type 0
AllSet c =
    (c.timeout ≢ pos 0)
    × (c.max_concurrent_requests ≢ pos 0)
    × (c.request_volume_threshold ≢ pos 0)
    × (c.sleep_window ≢ pos 0)
    × (c.error_percent_threshold ≢ pos 0)

-- After the defaults are filled in no field is 0, and a configuration without a 0 is left as it is;
-- so filling in twice is filling in once.
pub with_defaults-AllSet :
    (c : CommandConfig)
    → AllSet (with_defaults c)
      × (AllSet c → with_defaults c ≡ c)
      × (with_defaults (with_defaults c) ≡ with_defaults c)
unfolding with_defaults
with_defaults-AllSet c = (all_set c, kept c, kept (with_defaults c) (all_set c))
  where
    all_set : (d : CommandConfig) → AllSet (with_defaults d)
    all_set d = ground arith

    kept : (d : CommandConfig) → AllSet d → with_defaults d ≡ d
    kept d s = ground arith
