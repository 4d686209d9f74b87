-- ===== src/Config/Seeds.antt =====
-- What the first start writes, and what later ones leave alone.
use Prim.Native.String.{String}
use text.Mathlib.Text.{◌==◌ as str_eq}
use text.Mathlib.TextEquality.{eq_iff}
use doota.Prelude.{
  ℕ, ◌*◌, ◌/◌, ◌%◌, ◌≤◌, ◌<◌, ◌≡◌, ◌⊎◌, refl, sym, ap, ◌∙◌, true, false, List, [], ◌∷◌, Option,
  none, some, arith, All, leb, if◌then◌else◌, length, Option-cases, Bool-cases, inl, inr,
}
use doota.Prelude.Text.{Text, trim_space, is_space}
use doota.Prelude.Trim.{HasNoSpace, trim_space_idem, trim_space-HasNoSpace}
use doota.Config.Fields.{Value, text_value, Field, key_session_secret, min_session_secret_len}
use doota.Config.Values.{AppConfig, lookup, text_of, string_of, value_or_default, text_in}
use doota.Config.Cache.{
  ConfigStore, upsert, set_config, insert_missing, insert_defaults, seed_of, hex, hex_digit,
  ensure_session_secret, byte_length,
}

pub lookup-upsert :
    (k j : String) (v : Value) (rows : AppConfig)
    → lookup j (upsert k v rows) ≡ (if str_eq k j then some v else lookup j rows)
unfolding lookup upsert
lookup-upsert k j v [] = refl
lookup-upsert k j v (r ∷ rs) =
    ground (arith, eq_iff k j, eq_iff r.key k, eq_iff r.key j, lookup-upsert k j v rs)

lookup-insert_missing :
    (k j : String) (v w : Value) (rows : AppConfig)
    → lookup j rows ≡ some w
    → lookup j (insert_missing k v rows) ≡ some w
unfolding insert_missing
lookup-insert_missing k j v w rows h = elim (Option-cases (lookup k rows)) [
  | inr (old, found) ↦ rw (found, insert_missing) h
  | inl absent ↦ rw (absent, insert_missing) (lookup-upsert k j v rows ∙ ground (arith, eq_iff k j))
]

lookup-insert_missing_self :
    (k : String) (v : Value) (rows : AppConfig)
    → (w : Value) × (lookup k (insert_missing k v rows) ≡ some w)
unfolding insert_missing
lookup-insert_missing_self k v rows = elim (Option-cases (lookup k rows)) [
  | inr (old, found) ↦ (old, rw (found, insert_missing) found)
  | inl absent ↦
      (v, rw (absent, insert_missing) (lookup-upsert k k v rows ∙ rw ((eq_iff k k).1 refl)))
]

lookup-insert_defaults :
    (seeds : AppConfig) (fs : List Field) (rows : AppConfig) (j : String) (w : Value)
    → lookup j rows ≡ some w
    → lookup j (insert_defaults seeds fs rows) ≡ some w
unfolding insert_defaults
lookup-insert_defaults seeds [] rows j w h = h
lookup-insert_defaults seeds (f ∷ fs) rows j w h =
    lookup-insert_defaults seeds fs _ j w (lookup-insert_missing f.key j _ w rows h)

abbrev pub HasRow : AppConfig → Field → Type 0
HasRow rows f = (w : Value) × (lookup f.key rows ≡ some w)

insert_defaults-HasRow :
    (seeds : AppConfig) (fs : List Field) (rows : AppConfig)
    → All (HasRow (insert_defaults seeds fs rows)) fs
unfolding insert_defaults
insert_defaults-HasRow seeds [] rows = tt
insert_defaults-HasRow seeds (f ∷ fs) rows =
    let v = seed_of (lookup f.key seeds) f.default in
    let (w, found) = lookup-insert_missing_self f.key v rows in
    (
      (w, lookup-insert_defaults seeds fs (insert_missing f.key v rows) f.key w found),
      insert_defaults-HasRow seeds fs (insert_missing f.key v rows),
    )

insert_missing-found :
    (k : String) (v w : Value) (rows : AppConfig)
    → lookup k rows ≡ some w
    → insert_missing k v rows ≡ rows
unfolding insert_missing
insert_missing-found k v w rows h = rw (h, insert_missing)

insert_defaults-HasRow_same :
    (seeds : AppConfig) (fs : List Field) (rows : AppConfig)
    → All (HasRow rows) fs
    → insert_defaults seeds fs rows ≡ rows
unfolding insert_defaults
insert_defaults-HasRow_same seeds [] rows h = refl
insert_defaults-HasRow_same seeds (f ∷ fs) rows h =
    ap (insert_defaults seeds fs) (insert_missing-found f.key _ h.0.0 rows h.0.1)
    ∙ insert_defaults-HasRow_same seeds fs rows h.1

-- A start keeps the value of every key that has a row and leaves every field with one, so that a
-- later start changes nothing, whatever seeds the environment then gives.
pub insert_defaults-kept :
    (seeds later : AppConfig) (fs : List Field) (rows : AppConfig) (j : String)
    → ((lookup j rows ≡ none) ⊎ (lookup j (insert_defaults seeds fs rows) ≡ lookup j rows))
      × All (HasRow (insert_defaults seeds fs rows)) fs
      × (insert_defaults later fs (insert_defaults seeds fs rows) ≡ insert_defaults seeds fs rows)
insert_defaults-kept seeds later fs rows j = (
  elim (Option-cases (lookup j rows)) [
    | inl missing ↦ inl missing
    | inr (w, there) ↦ inr (lookup-insert_defaults seeds fs rows j w there ∙ sym there)
  ],
  insert_defaults-HasRow seeds fs rows,
  insert_defaults-HasRow_same later fs (insert_defaults seeds fs rows)
      (insert_defaults-HasRow seeds fs rows),
)

length-byte_length : (t : Text) → length t ≤ byte_length t
unfolding byte_length
length-byte_length [] = omega arith
length-byte_length (c ∷ cs) = let rest = length-byte_length cs in ground arith

length-hex : (bs : Text) → length (hex bs) ≡ 2 * length bs
unfolding hex
length-hex [] = refl
length-hex (b ∷ bs) = omega (arith, length-hex bs)

hex_digit-is_space : (d : ℕ) → d < 16 → is_space (hex_digit d) ≡ false
unfolding is_space
hex_digit-is_space d h = ground arith

hex-HasNoSpace : (bs : Text) → HasNoSpace (hex bs)
unfolding hex
hex-HasNoSpace [] = tt
hex-HasNoSpace (b ∷ bs) = (
  hex_digit-is_space (b / 16 % 16) (omega arith),
  (hex_digit-is_space (b % 16) (omega arith), hex-HasNoSpace bs),
)

-- A stored value that can be read is what a reader gets.
pub value_or_default-found {ℓ} :
    {A : Type ℓ} (read : Value → Option A) (zero a : A) (fields : List Field) (k : String)
    (c : AppConfig) (v : Value)
    → lookup k c ≡ some v
    → read v ≡ some a
    → value_or_default read zero fields k c ≡ a
unfolding value_or_default
value_or_default-found read zero a fields k c v h e = rw (h, value_or_default, e)

pub lookup-upsert_self :
    (k : String) (v : Value) (rows : AppConfig) → lookup k (upsert k v rows) ≡ some v
lookup-upsert_self k v rows = lookup-upsert k k v rows ∙ rw ((eq_iff k k).1 refl)

text_of-set_config :
    (fields : List Field) (k : String) (t : Text) (s : ConfigStore)
    → text_of fields k (set_config k (text_value t) s).rows ≡ trim_space t
unfolding text_of string_of set_config
text_of-set_config fields k t s = ap trim_space (
    value_or_default-found text_in [] t fields k (upsert k (text_value t) s.rows) (text_value t)
      (lookup-upsert_self k (text_value t) s.rows) refl)

-- A stored secret that is long enough is what every later start returns, with nothing written.
ensure_session_secret-stored :
    (fields : List Field) (seed buf t : Text) (s : ConfigStore)
    → text_of fields key_session_secret s.rows ≡ t
    → min_session_secret_len ≤ byte_length t
    → ensure_session_secret fields seed buf s ≡ (t, s)
unfolding ensure_session_secret
ensure_session_secret-stored fields seed buf t s same long =
    let test : leb min_session_secret_len (byte_length t) ≡ true = ground arith in rw (same, test)

abbrev pub IsLasting : List Field → Text × ConfigStore → Type 0
IsLasting fields r =
    (min_session_secret_len ≤ byte_length r.0)
    × ((seed buf : Text) → ensure_session_secret fields seed buf r.1 ≡ r)

written-IsLasting :
    (fields : List Field) (t : Text) (s : ConfigStore)
    → trim_space t ≡ t
    → min_session_secret_len ≤ byte_length t
    → IsLasting fields (t, set_config key_session_secret (text_value t) s)
written-IsLasting fields t s trimmed long = (
  long,
  λ seed buf.
      ensure_session_secret-stored fields seed buf t _
        (text_of-set_config fields key_session_secret t s ∙ trimmed) long,
)

-- Whatever is stored, seeded or drawn, a start ends with a signing secret of at least 32 bytes, and
-- every later start returns the same one and writes nothing, so no deploy ends the sessions.
pub ensure_session_secret-IsLasting :
    (fields : List Field) (seed buf : Text) (s : ConfigStore)
    → length buf ≡ 32
    → IsLasting fields (ensure_session_secret fields seed buf s)
unfolding ensure_session_secret
ensure_session_secret-IsLasting fields seed buf s drawn =
    let stored = text_of fields key_session_secret s.rows in
    elim (Bool-cases (leb min_session_secret_len (byte_length stored))) [
      | inl long ↦ rw long (
        ground arith,
        λ seed' buf'. ensure_session_secret-stored fields seed' buf' stored s refl (ground arith),
      )
      | inr short ↦ elim (Bool-cases (leb min_session_secret_len (byte_length (trim_space seed)))) [
        | inl long ↦
            rw (short, long)
              (written-IsLasting fields (trim_space seed) s (trim_space_idem seed) (ground arith))
        | inr none_given ↦
            rw (short, none_given)
              (written-IsLasting fields (hex buf) s
                (trim_space-HasNoSpace (hex buf) (hex-HasNoSpace buf))
                (omega (arith, length-hex buf, length-byte_length (hex buf))))
      ]
    ]
