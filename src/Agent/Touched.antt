-- ===== src/Agent/Touched.antt =====
-- internal/agent/agent.go, `uiTouched`: the files of a diff's stat that render.
use doota.Prelude.{
  ◌-◌, Bool, false, not, ◌&&◌, List, [], ◌∷◌, ◌++◌, Option, none, some, ltb, if◌then◌else◌, length,
  take, map,
}
use doota.Prelude.Text.{
  Text, codes, trim_space, is_empty, split_at_char, cut_before, from_last, to_lower, join,
  contains_text, decimal,
}

abbrev pub ui_extensions : List Text
ui_extensions =
    codes ".css"
    ∷ codes ".scss"
    ∷ codes ".sass"
    ∷ codes ".less"
    ∷ codes ".html"
    ∷ codes ".htm"
    ∷ codes ".gohtml"
    ∷ codes ".tmpl"
    ∷ codes ".hbs"
    ∷ codes ".ejs"
    ∷ codes ".jsx"
    ∷ codes ".tsx"
    ∷ codes ".vue"
    ∷ codes ".svelte"
    ∷ codes ".astro"
    ∷ []

-- The path on a line of the stat: what stands before `|`, trimmed.
unfoldable pub stat_path : Text → Option Text
unfolding is_empty
stat_path line = elim (cut_before b'|' line) [
  | none ↦ none
  | some raw ↦ if is_empty (trim_space raw) then none else some (trim_space raw)
]

unfoldable pub renders : Text → Bool
renders path = elim (from_last b'.' path) [
  | none ↦ false
  | some ext ↦ contains_text ui_extensions (map to_lower ext)
]

-- The loop over the lines; `hits` holds the paths found, in order.
unfoldable pub ui_hits : List Text → List Text → List Text
unfolding stat_path renders
ui_hits hits [] = hits
ui_hits hits (l ∷ ls) =
    ui_hits
      (elim (stat_path l) [
        | none ↦ hits
        | some p ↦ if renders p && not (contains_text hits p) then hits ++ p ∷ [] else hits
      ])
      ls

-- At most three names, and how many more there are.
unfoldable pub named : List Text → Text
named hits =
    if ltb 3 (length hits)
    then join (codes ", ")
        (take 3 hits ++ (codes "and " ++ decimal (length hits - 3) ++ codes " more") ∷ [])
    else join (codes ", ") hits

-- `none` where nothing that renders was touched.
unfoldable pub ui_touched : Text → Option Text
unfolding ui_hits named
ui_touched stat =
    let hits = ui_hits [] (split_at_char b'\n' stat) in
    if is_empty hits then none else some (named hits)
