-- ===== src/Tests/Settings.antt =====
-- The settings on sample data.
use doota.Prelude.{◌≡◌, ◌≢◌, ◌⊎◌, refl, List, [], ◌∷◌, none, some, All, arith}
use doota.Prelude.Int.{pos}
use doota.Prelude.Text.{codes, trim_space}
use doota.Store.Query.{ok}
use doota.Config.Fields.{
  Field, config_fields, max_output_tokens_field, kind_secret, text_value, int_value,
}
use doota.Config.Values.{AppConfig, lookup, parse_value, display}
use doota.Config.Cache.{get, upsert, insert_defaults, ensure_session_secret, new_cache}
use doota.Config.Coherence.{
  ConfigStep, begins, queries, puts, commits, invalidates, config_step, config_run, start_world,
  config_run-get,
}
use doota.Config.Form.{parse_value-display}
use doota.Config.Seeds.{HasRow, IsLasting, insert_defaults-kept, ensure_session_secret-IsLasting}

abbrev fields : List Field
fields = config_fields (codes "You are doot.") (codes "true")

abbrev rows : AppConfig
rows = record { key = "model.name"; value = text_value (codes "m") } ∷ []

-- A reader that queries before a commit and puts its rows after the invalidation, and another one.
abbrev overtaken : List ConfigStep
overtaken =
    begins
    ∷ queries 0
    ∷ commits (record { key = "model.name"; value = text_value (codes "n") } ∷ [])
    ∷ invalidates
    ∷ puts 0
    ∷ begins
    ∷ queries 0
    ∷ puts 0
    ∷ []

config_run-get_example :
    let s = (config_run overtaken (start_world rows 5)).store in
    (get s.now s.cache ≡ none) ⊎ (get s.now s.cache ≡ some s.rows)
unfolding config_run config_step start_world
config_run-get_example = config_run-get overtaken rows 5 refl

kind_int-kind_secret : max_output_tokens_field.kind ≢ kind_secret
kind_int-kind_secret e = ground arith

parse_value-display_example :
    parse_value max_output_tokens_field (
      display fields max_output_tokens_field
        (upsert "model.max_output_tokens" (int_value (pos 4096)) rows))
    ≡ ok (int_value (pos 4096))
unfolding parse_value trim_space
parse_value-display_example =
    parse_value-display fields max_output_tokens_field (codes " 4096 ") rows (int_value (pos 4096))
      kind_int-kind_secret refl

ensure_session_secret-IsLasting_example : IsLasting fields (
    ensure_session_secret fields
      (codes "short")
      (codes "0123456789abcdef0123456789abcdef")
      (record { rows = rows; cache = new_cache; now = 5 }))
ensure_session_secret-IsLasting_example =
    ensure_session_secret-IsLasting fields (codes "short")
      (codes "0123456789abcdef0123456789abcdef")
      (record { rows = rows; cache = new_cache; now = 5 }) refl

insert_defaults-kept_example :
    ((lookup "model.name" rows ≡ none)
      ⊎ (lookup "model.name" (insert_defaults [] fields rows) ≡ lookup "model.name" rows))
    × All (HasRow (insert_defaults [] fields rows)) fields
    × (insert_defaults rows fields (insert_defaults [] fields rows)
        ≡ insert_defaults [] fields rows)
insert_defaults-kept_example = insert_defaults-kept [] rows fields rows "model.name"
