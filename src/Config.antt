-- ===== src/Config.antt =====
-- crates/muka-gateway/src/config.rs: the settings of both ends and their validation. Texts are their
-- bytes. Reading the file is left out.
use muka_ai_trim.Common.{
  ℕ, Bool, true, false, not, ◌&&◌, ◌||◌, Option, none, some, List, [], ◌∷◌, ◌++◌, ltb,
  if◌then◌else◌, length, take, bytes_eq, Result, ok, ◌>>◌, guard,
}
use muka_ai_trim.Digest.{codes}
use muka_ai_trim.Policy.{Policy, default_policy}
use muka_ai_trim.Resolve.{contains, is_empty}
use muka_ai_trim.Store
use muka_ai_trim.Store.{default_config}

abbrev Text : Type 0
Text = List ℕ

pub data Role : Type 0 where
  local remote : Role

pub record LocalConfig : Type 0 where
  pub name : Text
  pub listen : Text
  pub peer : Text
  pub bind : Option Text
  pub max_conns : ℕ
  pub min_body_bytes : ℕ
  pub compress : Bool
  pub tls : Bool
  pub tls_ca_file : Option Text
  pub shadow : Bool

abbrev pub default_local : LocalConfig
default_local = record {
  name = codes "default";
  listen = codes "127.0.0.1:18788";
  peer = codes "127.0.0.1:18789";
  bind = none;
  max_conns = 8;
  min_body_bytes = 4096;
  compress = true;
  tls = false;
  tls_ca_file = none;
  shadow = false;
}

pub record RemoteConfig : Type 0 where
  pub listen : Text
  pub upstream : Text
  pub api_key : Option Text
  pub api_key_file : Option Text
  pub tls : Bool
  pub tls_dir : Option Text

abbrev pub default_remote : RemoteConfig
default_remote = record {
  listen = codes "0.0.0.0:18789";
  upstream = codes "https://api.openai.com";
  api_key = none;
  api_key_file = none;
  tls = false;
  tls_dir = none;
}

pub record Config : Type 0 where
  pub role : Role
  pub local : LocalConfig
  pub profiles : List LocalConfig
  pub remote : RemoteConfig
  pub store : Store.Config
  pub policy : Policy
  pub pairing_token : Option Text
  pub epoch_salt : ℕ
  pub metrics_listen : Option Text
  pub turn_log_cap : ℕ
  pub verbose : Bool

abbrev pub default_settings : Config
default_settings = record {
  role = local;
  local = default_local;
  profiles = [];
  remote = default_remote;
  store = default_config;
  policy = default_policy;
  pairing_token = none;
  epoch_salt = 1;
  metrics_listen = none;
  turn_log_cap = 200;
  verbose = false;
}

-- The reasons of `validate`, in its order.
pub data Invalid : Type 0 where
  plain_proxy bad_upstream pointless_tls short_token large_block : Invalid
  loops_back no_ca : Text → Invalid
  same_listen : Text → Invalid

unfoldable pub effective_profiles : Config → List LocalConfig
effective_profiles c = if is_empty c.profiles then c.local ∷ [] else c.profiles

abbrev pub is_local : Role → Bool
is_local local = true
is_local remote = false

abbrev pub is_none : {A : Type 0} → Option A → Bool
is_none none = true
is_none (some a) = false

abbrev pub starts_with : Text → Text → Bool
starts_with s prefix = bytes_eq (take (length prefix) s) prefix

abbrev pub is_http : Text → Bool
is_http u = starts_with u (codes "http://") || starts_with u (codes "https://")

unfoldable pub check_profiles : List Text → List LocalConfig → Result Invalid (Unit {0})
check_profiles seen [] = ok tt
check_profiles seen (p ∷ ps) =
    guard (not (bytes_eq p.listen p.peer)) (loops_back p.name)
    >> (guard (not (p.tls && is_none p.tls_ca_file)) (no_ca p.name)
        >> (guard (not (contains seen p.listen)) (same_listen p.listen)
            >> check_profiles (seen ++ (p.listen ∷ [])) ps))

unfoldable pub check_role : Config → Role → Result Invalid (Unit {0})
check_role c local = check_profiles [] (effective_profiles c)
check_role c remote = guard (not (c.remote.tls && is_none c.pairing_token)) pointless_tls

-- `pairing_token.as_deref().unwrap_or("")`
abbrev pub token_of : Option Text → Text
token_of none = []
token_of (some t) = t

unfoldable pub validate : Config → Result Invalid (Unit {0})
validate c =
    guard (not (not c.policy.enabled && is_local c.role)) plain_proxy
    >> (guard (is_local c.role || is_http c.remote.upstream) bad_upstream
        >> (check_role c c.role
            >> (guard (not (ltb (length (token_of c.pairing_token)) 16)) short_token
                >> guard (not (ltb c.store.max_bytes c.store.max_block_bytes)) large_block)))
