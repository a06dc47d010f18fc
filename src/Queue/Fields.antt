-- ===== src/Queue/Fields.antt =====
-- tools/queue_core.py, LIMITS and the checks of the text that a caller supplies: `_text`, `_exact`,
-- `_refs` and `_deps`.
use agent_engineering_standa.Base.{
  ℕ, Bool, true, false, ◌&&◌, ◌||◌, List, [], ◌∷◌, Text, ◌=ᵗ◌, contains, strip, has_part, codes,
  any, length, ltb, leb, ◌==◌, ok, refuse, guard, ◌>>=◌, ◌>>◌, if◌then◌else◌, not,
}
use agent_engineering_standa.Queue.Types.{
  Item, State, Outcome, empty_text, long_text, many_lines, many_refs, duplicate_dep, self_dep,
  late_dep, padded_text,
}

abbrev pub title_limit : ℕ
title_limit = 200

abbrev pub note_limit : ℕ
note_limit = 600

abbrev pub refs_limit : ℕ
refs_limit = 12

abbrev pub ref_limit : ℕ
ref_limit = 120

abbrev pub reason_limit : ℕ
reason_limit = 600

abbrev pub handoff_limit : ℕ
handoff_limit = 40000

-- `_CONTROL`
unfoldable pub is_control : ℕ → Bool
is_control c = leb c 0x1f || c == 0x7f

abbrev pub is_empty : Text → Bool
is_empty [] = true
is_empty (c ∷ s) = false

-- `_text`
unfoldable pub text_of : Text → ℕ → Bool → Outcome Text
unfolding is_control
text_of value limit required =
    let s = strip value in
    do
      refuse (required && is_empty s) empty_text
      refuse (ltb limit (length s)) long_text
      refuse (any is_control s || has_part (codes "<!--") s) many_lines
      ok s

-- `_exact`
unfoldable pub exact : Text → ℕ → Bool → Outcome Text
exact value limit required = do
  s ← text_of value limit required
  guard (s =ᵗ value) padded_text
  ok value

-- `[_text(r, "ref", LIMITS["ref"]) for r in refs]`
unfoldable pub texts_of : List Text → Outcome (List Text)
texts_of [] = ok []
texts_of (r ∷ rs) = do s ← text_of r ref_limit true; ss ← texts_of rs; ok (s ∷ ss)

-- `_refs`
unfoldable pub refs_of : List Text → Outcome (List Text)
refs_of refs = do rs ← texts_of refs; refuse (ltb refs_limit (length rs)) many_refs; ok rs

-- `len(set(xs)) == len(xs)`
unfoldable pub distinct : List Text → Bool
unfolding contains
distinct [] = true
distinct (x ∷ xs) = not (contains x xs) && distinct xs

-- The ids of the items before `id`, after those in `seen`.
unfoldable pub earlier_ids : Text → List Item → List Text → List Text
earlier_ids id [] seen = seen
earlier_ids id (i ∷ is) seen =
    let rest = earlier_ids id is (i.id ∷ seen) in if i.id =ᵗ id then seen else rest

-- The last loop of `_deps`.
unfoldable pub check_deps : Text → List Text → List Text → Outcome (Unit {0})
unfolding contains
check_deps id earlier [] = ok tt
check_deps id earlier (d ∷ ds) = do
  refuse (d =ᵗ id) (self_dep d)
  guard (contains d earlier) (late_dep id d)
  check_deps id earlier ds

-- `_deps`
unfoldable pub deps_of : State → Text → List Text → Outcome (List Text)
unfolding distinct earlier_ids check_deps
deps_of state id deps = do
  guard (distinct deps) duplicate_dep
  check_deps id (earlier_ids id state.items state.archived) deps
  ok deps
