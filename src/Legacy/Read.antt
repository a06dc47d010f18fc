-- ===== src/Legacy/Read.antt =====
-- `parse` of tools/work_queue.py against `render`.
use mathlib.Core.List.{append_assoc}
use agent_engineering_standa.Base.{
  ℕ, sym, ap, map, ◌≡◌, refl, ◌∙◌, true, false, none, some, List, [], ◌∷◌, ◌++◌, Text, codes,
  starts_with, has_part, is_space, lstrip, ok, arith, ◌==◌, any,
}
use agent_engineering_standa.Queue.Types.{Legacy}
use agent_engineering_standa.Legacy.Items.{validate, next_item}
use agent_engineering_standa.Legacy.Body.{
  Json, marker, newline, fence, until_fence, after_spaces, rest_after, block_here, find_block,
  parsed, parse, join, line, header, when_empty, checklist, block_lines, render,
}

rest_after_prefix : (p s : Text) → rest_after p (p ++ s) ≡ some s
unfolding rest_after
rest_after_prefix [] s = refl
rest_after_prefix (c ∷ p) s = ground (arith, rest_after_prefix p s)

-- A text in a line of its own is not found across the end of the line before.
rest_after_line :
    (p t s : Text)
    → any (λ c. c == 10) t ≡ false
    → starts_with p t ≡ false
    → rest_after t (p ++ (10 ∷ s)) ≡ none
unfolding rest_after starts_with
rest_after_line [] [] s l n = cc
rest_after_line [] (d ∷ t) s l n = ground arith
rest_after_line (c ∷ p) [] s l n = cc
rest_after_line (c ∷ p) (d ∷ t) s l n = ground (arith, rest_after_line p t s)

has_part-false :
    (t : Text) (c : ℕ) (p : Text)
    → has_part t (c ∷ p) ≡ false
    → (starts_with (c ∷ p) t ≡ false) × (has_part t p ≡ false)
unfolding has_part
has_part-false t c p n = (ground arith, ground arith)

find_block_line :
    (p s : Text) → has_part marker p ≡ false → find_block (p ++ (10 ∷ s)) ≡ find_block s
unfolding find_block block_here has_part starts_with rest_after
find_block_line [] s n = refl
find_block_line (c ∷ p) s n =
    let (first, rest) = has_part-false marker c p n in
    rw (rest_after_line (c ∷ p) marker s refl first) (find_block_line p s rest)

starts_with_line :
    (p t s : Text) → any (λ c. c == 10) t ≡ false → starts_with (p ++ (10 ∷ s)) t ≡ starts_with p t
unfolding starts_with
starts_with_line [] [] s l = refl
starts_with_line [] (d ∷ t) s l = ground arith
starts_with_line (c ∷ p) [] s l = refl
starts_with_line (c ∷ p) (d ∷ t) s l = ground (arith, starts_with_line p t s)

until_fence_line :
    (p s : Text)
    → has_part (newline ∷ fence) p ≡ false
    → until_fence (p ++ (newline ∷ fence ++ s)) ≡ some p
unfolding until_fence has_part starts_with
until_fence_line [] s n = refl
until_fence_line (c ∷ p) s n =
    let same = starts_with_line p fence (fence ++ s) refl in
    rw (until_fence_line p s (ground arith)) (ground (arith, same))

-- Two runs of lines.
join_append :
    (l : Text) (ls : List Text) (m : Text) (ms : List Text)
    → join (newline ∷ []) ((l ∷ ls) ++ (m ∷ ms))
      ≡ join (newline ∷ []) (l ∷ ls) ++ (newline ∷ join (newline ∷ []) (m ∷ ms))
unfolding join
join_append l [] m ms = refl
join_append l (k ∷ ls) m ms =
    rw (join_append k ls m ms) (sym (append_assoc l (newline ∷ join (newline ∷ []) (k ∷ ls)) _))

brace-is_space : (c : ℕ) → (c == 123) ≡ true → is_space c ≡ false
unfolding is_space
brace-is_space c h = ground arith

after_spaces_object : (t s : Text) → starts_with t (codes "{") ≡ true → after_spaces (t ++ s) ≡ none
unfolding after_spaces starts_with
after_spaces_object [] s h = cc
after_spaces_object (c ∷ t) s h = rw (brace-is_space c (ground arith)) refl

-- What the code relies on of the JSON of a state.
pub record IsJson (json : Json) (state : Legacy) : Type 0 where
  -- `loads` reads it back
  pub read : json.loads (json.dumps state) ≡ some state
  -- it is an object
  pub object : starts_with (json.dumps state) (codes "{") ≡ true
  -- no line of it is a fence
  pub unfenced : has_part (newline ∷ fence) (json.dumps state) ≡ false

find_block_fenced :
    (t s : Text)
    → starts_with t (codes "{") ≡ true
    → has_part (newline ∷ fence) t ≡ false
    → find_block (marker ++ (newline ∷ codes "```json" ++ (newline ∷ t ++ (newline ∷ fence ++ s))))
      ≡ some t
unfolding find_block block_here rest_after lstrip is_space
find_block_fenced t s o f =
    rw (after_spaces_object t (newline ∷ fence ++ s) o, until_fence_line t s f) refl

render-lines :
    (json : Json) (s : Legacy)
    → render json s
      ≡ join (newline ∷ []) (checklist s)
        ++ (newline ∷ marker
            ++ (newline ∷ codes "```json"
                ++ (newline ∷ json.dumps s ++ (newline ∷ fence ++ (newline ∷ [])))))
unfolding render checklist block_lines join
render-lines json s =
    let ls = map (line (next_item s)) s.items ++ when_empty s.items ++ ([] ∷ []) in
    let rest = codes "```json" ∷ json.dumps s ∷ fence ∷ [] in
    ap (λ (t : Text). t ++ (newline ∷ [])) (join_append header ls marker rest)
    ∙ append_assoc (join (newline ∷ []) (header ∷ ls))
        (newline ∷ join (newline ∷ []) (marker ∷ rest)) (newline ∷ [])
    ∙ ap
        (λ (t : Text).
          join (newline ∷ []) (header ∷ ls)
          ++ (newline ∷ marker ++ (newline ∷ codes "```json" ++ (newline ∷ t))))
        (append_assoc (json.dumps s) (newline ∷ fence) (newline ∷ []))

parsed-dumps :
    (json : Json) (s : Legacy)
    → json.loads (json.dumps s) ≡ some s
    → validate s ≡ ok tt
    → parsed json (some (json.dumps s)) ≡ ok s
parsed-dumps json s r v = rw r (rw v refl)

-- `parse` reads the state that `render` wrote, provided that no line of the checklist holds the
-- marker.
pub parse-render :
    (json : Json) (s : Legacy)
    → IsJson json s
    → has_part marker (join (newline ∷ []) (checklist s)) ≡ false
    → validate s ≡ ok tt
    → parse json (render json s) ≡ ok s
unfolding parse
parse-render json s j clear v =
    let found =
      find_block_line (join (newline ∷ []) (checklist s)) _ clear
      ∙ find_block_fenced (json.dumps s) (newline ∷ []) j.object j.unfenced in
    rw (render-lines json s, found) (parsed-dumps json s j.read v)
