-- ===== src/Legacy/Body.antt =====
-- tools/work_queue.py, `parse` and `render`: the body of the Issue.
use agent_engineering_standa.Base.{
  ℕ, Bool, false, Option, none, some, List, [], ◌∷◌, ◌++◌, map, Text, ◌=ᵗ◌, codes, is_space, lstrip,
  starts_with, ◌==◌, ok, err, ◌>>◌, if◌then◌else◌,
}
use agent_engineering_standa.Queue.Types.{
  pending, active, blocked, LegacyStatus, live, LegacyItem, Legacy,
}
use agent_engineering_standa.Queue.Fields.{is_empty}
use agent_engineering_standa.Legacy.Items.{Answer, no_block, malformed, validate, next_item}

-- What the code takes from `json`: `dumps(state, indent=1)`, and `loads` with the fields and types
-- that `_validate` asks for.
pub record Json : Type 0 where
  pub dumps : Legacy → Text
  pub loads : Text → Option Legacy

abbrev pub marker : Text
marker = codes "<!-- agent-engineering-standard:queue:v1 -->"

abbrev pub newline : ℕ
newline = 10

abbrev pub fence : Text
fence = codes "```"

-- `(.*?)\n```` : up to the first closing fence.
unfoldable pub until_fence : Text → Option Text
unfolding starts_with
until_fence [] = none
until_fence (c ∷ s) =
    let rest = until_fence s in
    if starts_with (c ∷ s) (newline ∷ fence)
    then some []
    else elim rest [ none ↦ none | some t ↦ some (c ∷ t) ]

abbrev pub or_else : Option Text → Option Text → Option Text
or_else none o = o
or_else (some t) o = some t

-- `\s*\n(.*?)\n```` : the last line end of the white space is tried first.
unfoldable pub after_spaces : Text → Option Text
unfolding is_space until_fence
after_spaces [] = none
after_spaces (c ∷ s) =
    let later = after_spaces s in
    let here = if c == newline then until_fence s else none in
    if is_space c then or_else later here else none

-- What follows a prefix, if it is one.
unfoldable pub rest_after : Text → Text → Option Text
rest_after [] s = some s
rest_after (d ∷ t) [] = none
rest_after (d ∷ t) (c ∷ s) = let rest = rest_after t s in if c == d then rest else none

abbrev pub then_spaces : Option Text → Option Text
then_spaces none = none
then_spaces (some s) = after_spaces s

abbrev pub then_json : Option Text → Option Text
then_json none = none
then_json (some s) = then_spaces (rest_after (codes "```json") (lstrip s))

-- `_BLOCK` at the start of a text.
unfoldable pub block_here : Text → Option Text
unfolding rest_after after_spaces lstrip
block_here s = then_json (rest_after marker s)

-- `_BLOCK.search`
unfoldable pub find_block : Text → Option Text
unfolding block_here
find_block [] = none
find_block (c ∷ s) = or_else (block_here (c ∷ s)) (find_block s)

abbrev pub loaded : Option Legacy → Answer Legacy
loaded none = err malformed
loaded (some state) = do validate state; ok state

module _ (json : Json) where
  abbrev pub parsed : Option Text → Answer Legacy
  parsed none = err no_block
  parsed (some t) = loaded (json.loads t)

  unfoldable pub parse : Text → Answer Legacy
  parse body = parsed (find_block body)

-- `sep.join(parts)`
unfoldable pub join : Text → List Text → Text
join sep [] = []
join sep (t ∷ []) = t
join sep (t ∷ u ∷ ts) = t ++ (sep ++ join sep (u ∷ ts))

-- `or "no refs"`
abbrev pub or_text : Text → Text → Text
or_text t u = if is_empty t then u else t

-- `_CHECK`
abbrev pub check_of : LegacyStatus → Text
check_of (live s) = codes " "
check_of LegacyStatus.done = codes "x"

-- `_BADGE`
abbrev pub badge_of : LegacyStatus → Text
badge_of (live pending) = codes "⏳ pending"
badge_of (live active) = codes "🔨 active"
badge_of (live blocked) = codes "⛔ blocked"
badge_of LegacyStatus.done = codes "✅ done"

abbrev pub is_upcoming : Option LegacyItem → LegacyItem → Bool
is_upcoming none i = false
is_upcoming (some n) i = i.id =ᵗ n.id

-- The line of one item.
unfoldable pub line : Option LegacyItem → LegacyItem → Text
unfolding join
line upcoming i =
    codes "- ["
    ++ check_of i.status
    ++ codes "] **"
    ++ i.id
    ++ codes "** "
    ++ i.title
    ++ codes " — "
    ++ or_text (join (codes ", ") i.refs) (codes "no refs")
    ++ codes " · "
    ++ badge_of i.status
    ++ (if is_upcoming upcoming i then codes " · 👉 **NEXT**" else [])
    ++ (if is_empty i.note then [] else newline ∷ codes "  - " ++ i.note)

-- `HEADER`
abbrev pub header : Text
header =
    codes "## 📋 Execution Queue"
    ++ newline
      ∷ newline
      ∷ codes "Ordered queue of work across the owner's repositories. **Order is binding**: "
    ++ codes "work the first item that is neither done nor blocked. Interruptions only edit "
    ++ codes "an item's details or append to the end. Edit with `tools/work_queue.py` "
    ++ codes "(agent-engineering-standard); the JSON block below is the source of truth "
    ++ codes "and the checklist is regenerated from it on every write."
    ++ newline ∷ []

abbrev pub when_empty : List LegacyItem → List Text
when_empty [] = codes "_Queue is empty._" ∷ []
when_empty (i ∷ is) = []

-- The lines above the marker.
unfoldable pub checklist : Legacy → List Text
unfolding line
checklist state =
    header ∷ map (line (next_item state)) state.items ++ when_empty state.items ++ ([] ∷ [])

unfoldable pub block_lines : Json → Legacy → List Text
block_lines json state = marker ∷ codes "```json" ∷ json.dumps state ∷ fence ∷ []

unfoldable pub render : Json → Legacy → Text
unfolding checklist block_lines join
render json state =
    join (newline ∷ []) (checklist state ++ block_lines json state) ++ (newline ∷ [])
