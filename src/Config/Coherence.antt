-- ===== src/Config/Coherence.antt =====
-- What a reader of the settings can be given, however readers and writers interleave.
use doota.Prelude.{
  ==_iff, Bool-cases, ℕ, zero, suc, ◌+◌, ◌-◌, ◌≤◌, ◌<◌, ◌≡◌, ◌⊎◌, refl, List, [], ◌∷◌, Option, none,
  some, arith, All, ltb, ◌==◌, if◌then◌else◌, inl, inr,
}
use doota.Config.Values.{AppConfig}
use doota.Config.Cache.{
  ConfigCache, ConfigStore, get, begin, put, invalidate, upsert_all, new_cache, config_cache_ttl,
}

-- A call of `LoadConfig` that found nothing cached: what `begin` gave it, and the rows once it has
-- queried them.
pub record Reader : Type 0 where
  pub gen : ℕ
  pub result : Option AppConfig

-- `uncleared` counts the writers between their commit and their invalidation.
pub record ConfigWorld : Type 0 where
  pub store : ConfigStore
  pub readers : List Reader
  pub uncleared : ℕ

-- The steps that `LoadConfig`, `SetConfig` and `SetConfigValues` take one at a time: the mutex of
-- the cache makes each of its methods one step, and so does the database a query and a commit.
pub data ConfigStep : Type 0 where
  begins : ConfigStep
  queries puts : ℕ → ConfigStep
  commits : AppConfig → ConfigStep
  invalidates : ConfigStep
  passes : ℕ → ConfigStep

unfoldable pub query_at : ℕ → AppConfig → List Reader → List Reader
query_at i rows [] = []
query_at zero rows (r ∷ rs) = record r { result = some rows } ∷ rs
query_at (suc i) rows (r ∷ rs) = r ∷ query_at i rows rs

unfoldable pub reader_at : ℕ → List Reader → Option Reader
reader_at i [] = none
reader_at zero (r ∷ rs) = some r
reader_at (suc i) (r ∷ rs) = reader_at i rs

-- What the cache is after a reader's put; a reader that has no rows yet does not get there.
unfoldable pub put_by : Option Reader → ℕ → ConfigCache → ConfigCache
unfolding put
put_by none now c = c
put_by (some r) now c = elim r.result [ none ↦ c | some rows ↦ put rows r.gen now c ]

unfoldable pub config_step : ConfigStep → ConfigWorld → ConfigWorld
unfolding begin query_at reader_at put_by invalidate
config_step begins w = record w {
  readers = record { gen = begin w.store.cache; result = none } ∷ w.readers;
}
config_step (queries i) w = record w { readers = query_at i w.store.rows w.readers }
config_step (puts i) w = record w {
  store = record w.store { cache = put_by (reader_at i w.readers) w.store.now w.store.cache };
}
config_step (commits ws) w = record w {
  store = record w.store { rows = upsert_all ws w.store.rows };
  uncleared = suc w.uncleared;
}
config_step invalidates w = if w.uncleared == 0 then w else record w {
  store = record w.store { cache = invalidate w.store.cache };
  uncleared = w.uncleared - 1;
}
config_step (passes n) w = record w { store = record w.store { now = w.store.now + n } }

unfoldable pub config_run : List ConfigStep → ConfigWorld → ConfigWorld
config_run [] w = w
config_run (s ∷ ss) w = config_run ss (config_step s w)

unfoldable pub start_world : AppConfig → ℕ → ConfigWorld
unfolding new_cache
start_world rows now = record {
  store = record { rows = rows; cache = new_cache; now = now };
  readers = [];
  uncleared = 0;
}

-- A reader of the current generation holds the current rows, if any, unless a writer has yet to
-- invalidate; a reader of an older one cannot put.
abbrev Holds : AppConfig → Option AppConfig → Type 0
Holds rows none = Unit {0}
Holds rows (some cfg) = cfg ≡ rows

abbrev IsUsable : ℕ → ℕ → AppConfig → Reader → Type 0
IsUsable uncleared generation rows r =
    (r.gen ≤ generation) × (uncleared ≡ 0 → r.gen ≡ generation → Holds rows r.result)

abbrev IsCoherent : ConfigWorld → Type 0
IsCoherent w =
    All (IsUsable w.uncleared w.store.cache.generation w.store.rows) w.readers
    × (w.uncleared ≡ 0 → Holds w.store.rows w.store.cache.snapshot)

query_at-IsUsable :
    (u g : ℕ) (rows : AppConfig) (i : ℕ) (rs : List Reader)
    → All (IsUsable u g rows) rs
    → All (IsUsable u g rows) (query_at i rows rs)
unfolding query_at
query_at-IsUsable u g rows i [] h = tt
query_at-IsUsable u g rows zero (r ∷ rs) h = ((h.0.0, λ _ _. refl), h.1)
query_at-IsUsable u g rows (suc i) (r ∷ rs) h = (h.0, query_at-IsUsable u g rows i rs h.1)

put-Holds :
    (now : ℕ) (rows : AppConfig) (c : ConfigCache) (gen : ℕ) (result : Option AppConfig)
    → (gen ≡ c.generation → Holds rows result)
    → Holds rows c.snapshot
    → Holds rows
        (elim result as (λ _. ConfigCache) [ none ↦ c | some cfg ↦ put cfg gen now c ]).snapshot
unfolding put
put-Holds now rows c gen none h k = k
put-Holds now rows c gen (some cfg) h k = elim (Bool-cases (c.generation == gen)) [
  | inl same ↦ rw same (h (omega (arith, (==_iff c.generation gen).0 same)))
  | inr other ↦ rw other k
]

put_by-generation :
    (r : Option Reader) (now : ℕ) (c : ConfigCache) → (put_by r now c).generation ≡ c.generation
unfolding put_by put
put_by-generation none now c = refl
put_by-generation (some r) now c = put-generation r.result r.gen
  where
    put-generation :
        (result : Option AppConfig) (gen : ℕ)
        → (elim result as (λ _. ConfigCache) [ none ↦ c | some cfg ↦ put cfg gen now c ]).generation
          ≡ c.generation
    put-generation none gen = refl
    put-generation (some cfg) gen = ground arith

put_by-Holds :
    (u now : ℕ) (rows : AppConfig) (c : ConfigCache) (i : ℕ) (rs : List Reader)
    → All (IsUsable u c.generation rows) rs
    → u ≡ 0
    → Holds rows c.snapshot
    → Holds rows (put_by (reader_at i rs) now c).snapshot
unfolding put_by reader_at put
put_by-Holds u now rows c i [] h e k = k
put_by-Holds u now rows c zero (r ∷ rs) h e k =
    put-Holds now rows c r.gen r.result (λ same. h.0.1 e same) k
put_by-Holds u now rows c (suc i) (r ∷ rs) h e k = put_by-Holds u now rows c i rs h.1 e k

-- No reader is ahead, and those of the current generation hold nothing wrong once a writer has
-- committed (`u` is not 0) or a generation has passed.
IsUsable-older :
    (u v g k : ℕ) (rows rows' : AppConfig) (rs : List Reader)
    → g ≤ k
    → (v ≡ 0 → g < k)
    → All (IsUsable u g rows) rs
    → All (IsUsable v k rows') rs
IsUsable-older u v g k rows rows' [] le lt h = tt
IsUsable-older u v g k rows rows' (r ∷ rs) le lt h = (
  (omega arith, λ e same. absurd (let below : g < k = lt e in omega arith)),
  IsUsable-older u v g k rows rows' rs le lt h.1,
)

config_step-IsCoherent :
    (s : ConfigStep) (w : ConfigWorld) → IsCoherent w → IsCoherent (config_step s w)
unfolding config_step begin invalidate
config_step-IsCoherent begins w h = (((omega arith, λ _ _. tt), h.0), h.1)
config_step-IsCoherent (queries i) w h =
    (query_at-IsUsable w.uncleared w.store.cache.generation w.store.rows i w.readers h.0, h.1)
config_step-IsCoherent (puts i) w h = (
  rw (put_by-generation (reader_at i w.readers) w.store.now w.store.cache) h.0,
  λ e. put_by-Holds w.uncleared w.store.now w.store.rows w.store.cache i w.readers h.0 e (h.1 e),
)
config_step-IsCoherent (commits ws) w h = (
  IsUsable-older w.uncleared (suc w.uncleared) w.store.cache.generation w.store.cache.generation
      w.store.rows (upsert_all ws w.store.rows) w.readers (omega arith) (λ e. absurd (omega arith))
      h.0,
  λ e. absurd (omega arith),
)
config_step-IsCoherent invalidates w h = elim (Bool-cases (w.uncleared == 0)) [
  | inl none_left ↦ rw none_left h
  | inr some_left ↦ rw some_left (
    IsUsable-older w.uncleared (w.uncleared - 1) w.store.cache.generation
        (suc w.store.cache.generation) w.store.rows w.store.rows w.readers (omega arith)
        (λ e. omega arith) h.0,
    λ e. tt,
  )
]
config_step-IsCoherent (passes n) w h = h

config_run-IsCoherent :
    (ss : List ConfigStep) (w : ConfigWorld) → IsCoherent w → IsCoherent (config_run ss w)
unfolding config_run
config_run-IsCoherent [] w h = h
config_run-IsCoherent (s ∷ ss) w h =
    config_run-IsCoherent ss (config_step s w) (config_step-IsCoherent s w h)

get-Holds :
    (now : ℕ) (rows : AppConfig) (c : ConfigCache)
    → Holds rows c.snapshot
    → (get now c ≡ none) ⊎ (get now c ≡ some rows)
unfolding get
get-Holds now rows c h = cached c.snapshot h
  where
    cached :
        (o : Option AppConfig)
        → Holds rows o
        → ((elim o as (λ _. Option AppConfig) [
          | none ↦ none
          | some cfg ↦ if ltb config_cache_ttl (now - c.loaded_at) then none else some cfg
        ])
            ≡ none)
          ⊎ ((elim o as (λ _. Option AppConfig) [
            | none ↦ none
            | some cfg ↦ if ltb config_cache_ttl (now - c.loaded_at) then none else some cfg
          ])
              ≡ some rows)
    cached none k = inl refl
    cached (some cfg) k = elim (Bool-cases (ltb config_cache_ttl (now - c.loaded_at))) [
      | inl old ↦ inl (rw old)
      | inr fresh ↦ inr (rw (fresh, k))
    ]

-- However the steps of readers and writers interleave, from a start with nothing cached: once every
-- writer that has committed has also invalidated, the cache gives either nothing or the rows that
-- the table holds now, so a reader that queried before a commit never brings the old rows back.
pub config_run-get :
    (steps : List ConfigStep) (rows : AppConfig) (now : ℕ)
    → (config_run steps (start_world rows now)).uncleared ≡ 0
    → let s = (config_run steps (start_world rows now)).store in
      (get s.now s.cache ≡ none) ⊎ (get s.now s.cache ≡ some s.rows)
unfolding start_world new_cache
config_run-get steps rows now e =
    let w = config_run steps (start_world rows now) in
    get-Holds w.store.now w.store.rows w.store.cache
      ((config_run-IsCoherent steps (start_world rows now) (tt, λ _. tt)).1 e)
