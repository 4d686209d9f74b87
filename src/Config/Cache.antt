-- ===== src/Config/Cache.antt =====
-- internal/store/appconfig.go: the cached snapshot of the settings, its writers, and what the first
-- start writes. Times are nanoseconds.
use Prim.Native.String.{String}
use text.Mathlib.Text.{◌==◌ as str_eq}
use doota.Prelude.{
  ℕ, suc, ◌+◌, ◌-◌, ◌/◌, ◌%◌, List, [], ◌∷◌, Option, none, some, ltb, leb, ◌==◌, if◌then◌else◌,
}
use doota.Prelude.Text.{Text, trim_space, is_empty}
use doota.Config.Fields.{Value, text_value, Field, key_session_secret, min_session_secret_len}
use doota.Config.Values.{AppConfig, lookup, text_of}

abbrev pub config_cache_ttl : ℕ
config_cache_ttl = 30000000000

pub record ConfigCache : Type 0 where
  pub snapshot : Option AppConfig
  pub loaded_at : ℕ
  pub generation : ℕ

unfoldable pub new_cache : ConfigCache
new_cache = record { snapshot = none; loaded_at = 0; generation = 0 }

-- `configCache.get`, at the time `now`.
unfoldable pub get : ℕ → ConfigCache → Option AppConfig
get now c = elim c.snapshot [
  | none ↦ none
  | some cfg ↦ if ltb config_cache_ttl (now - c.loaded_at) then none else some cfg
]

-- `configCache.begin`.
unfoldable pub begin : ConfigCache → ℕ
begin c = c.generation

unfoldable pub put : AppConfig → ℕ → ℕ → ConfigCache → ConfigCache
put cfg gen now c =
    if c.generation == gen then record c { snapshot = some cfg; loaded_at = now } else c

unfoldable pub invalidate : ConfigCache → ConfigCache
invalidate c = record c { snapshot = none; generation = suc c.generation }

-- The table app_config with the cache of the process.
pub record ConfigStore : Type 0 where
  pub rows : AppConfig
  pub cache : ConfigCache
  pub now : ℕ

-- `LoadConfig`, where the query succeeds and nothing comes between its steps.
unfoldable pub load_config : ConfigStore → AppConfig × ConfigStore
unfolding get begin put
load_config s = elim (get s.now s.cache) [
  | some cfg ↦ (cfg, s)
  | none ↦ (s.rows, record s { cache = put s.rows (begin s.cache) s.now s.cache })
]

-- `INSERT … ON CONFLICT (key) DO UPDATE`.
unfoldable pub upsert : String → Value → AppConfig → AppConfig
upsert k v [] = record { key = k; value = v } ∷ []
upsert k v (r ∷ rs) =
    let rest = upsert k v rs in if str_eq r.key k then record r { value = v } ∷ rs else r ∷ rest

-- `SetConfig`.
unfoldable pub set_config : String → Value → ConfigStore → ConfigStore
unfolding upsert invalidate
set_config k v s = record s { rows = upsert k v s.rows; cache = invalidate s.cache }

unfoldable pub upsert_all : AppConfig → AppConfig → AppConfig
unfolding upsert
upsert_all [] rows = rows
upsert_all (w ∷ ws) rows = upsert_all ws (upsert w.key w.value rows)

-- `SetConfigValues`, on the values in the order in which the map gives them.
unfoldable pub set_config_values : AppConfig → ConfigStore → ConfigStore
unfolding upsert_all invalidate is_empty
set_config_values ws s =
    if is_empty ws then s else record s { rows = upsert_all ws s.rows; cache = invalidate s.cache }

-- `INSERT … ON CONFLICT (key) DO NOTHING`.
unfoldable pub insert_missing : String → Value → AppConfig → AppConfig
insert_missing k v rows = elim (lookup k rows) [ some _ ↦ rows | none ↦ upsert k v rows ]

abbrev pub seed_of : Option Value → Value → Value
seed_of none default = default
seed_of (some (text_value t)) default = if is_empty t then default else text_value t
seed_of (some v) default = v

unfoldable pub insert_defaults : AppConfig → List Field → AppConfig → AppConfig
unfolding is_empty
insert_defaults seeds [] rows = rows
insert_defaults seeds (f ∷ fs) rows =
    insert_defaults seeds fs (insert_missing f.key (seed_of (lookup f.key seeds) f.default) rows)

-- `EnsureConfigDefaults`.
unfoldable pub ensure_config_defaults : AppConfig → List Field → ConfigStore → ConfigStore
unfolding insert_defaults invalidate
ensure_config_defaults seeds fields s = record s {
  rows = insert_defaults seeds fields s.rows;
  cache = invalidate s.cache;
}

abbrev pub hex_digit : ℕ → ℕ
hex_digit d = if ltb d 10 then b'0' + d else b'a' + (d - 10)

-- `hex.EncodeToString`.
unfoldable pub hex : Text → Text
hex [] = []
hex (b ∷ bs) = hex_digit (b / 16 % 16) ∷ hex_digit (b % 16) ∷ hex bs

-- `len` of a text, in bytes of UTF-8.
unfoldable pub byte_length : Text → ℕ
byte_length [] = 0
byte_length (c ∷ cs) =
    (if ltb c 128 then 1 else if ltb c 2048 then 2 else if ltb c 65536 then 3 else 4)
    + byte_length cs

-- `EnsureSessionSecret`, where `buf` is what `rand.Read` fills in.
unfoldable pub ensure_session_secret : List Field → Text → Text → ConfigStore → Text × ConfigStore
ensure_session_secret fields seed buf s =
    let secret = text_of fields key_session_secret s.rows in
    if leb min_session_secret_len (byte_length secret)
    then (secret, s)
    else if leb min_session_secret_len (byte_length (trim_space seed))
    then (trim_space seed, set_config key_session_secret (text_value (trim_space seed)) s)
    else (hex buf, set_config key_session_secret (text_value (hex buf)) s)
