-- ===== src/Queue/Valid/Supplied.antt =====
-- What the checks of supplied text in tools/queue_core.py, `_text`, `_refs` and `_deps`, let through.
use mathlib.Core.List.{reverse, reverse-cons}
use agent_engineering_standa.Base.{
  ℕ, ◌≡◌, refl, sym, ◌∙◌, Bool, true, false, not, ◌&&◌, ◌||◌, List, [], ◌∷◌, ◌++◌, Text, ◌=ᵗ◌,
  contains, is_space, lstrip, strip, any, all, length, ltb, ok, refuse, guard, bind-eq-ok,
  refuse-eq-ok, guard-eq-ok, arith, ap, any-append, has_part, codes,
}
use agent_engineering_standa.Queue.Types.{
  State, empty_text, long_text, many_lines, many_refs, duplicate_dep,
}
use agent_engineering_standa.Queue.Fields.{
  ref_limit, refs_limit, is_empty, is_control, text_of, texts_of, refs_of, distinct, earlier_ids,
  check_deps, deps_of,
}
use agent_engineering_standa.Queue.Validate.{fits}

-- Some code point is no blank.
abbrev is_visible : Text → Bool
is_visible s = any (λ c. not (is_space c)) s

visible-reverse : (s : Text) → is_visible (reverse s) ≡ is_visible s
visible-reverse [] = refl
visible-reverse (c ∷ s) =
    rw (reverse-cons c s)
      (ground (arith, any-append (λ c. not (is_space c)) (reverse s) (c ∷ []), visible-reverse s))

visible-lstrip : (s : Text) → is_visible (lstrip s) ≡ is_visible s
unfolding lstrip
visible-lstrip [] = refl
visible-lstrip (c ∷ s) = ground (arith, visible-lstrip s)

lstrip-visible : (s : Text) → is_empty (lstrip s) ≡ not (is_visible s)
unfolding lstrip
lstrip-visible [] = refl
lstrip-visible (c ∷ s) = ground (arith, lstrip-visible s)

is_empty-snoc : (s : Text) (c : ℕ) → is_empty (s ++ (c ∷ [])) ≡ false
is_empty-snoc [] c = refl
is_empty-snoc (d ∷ s) c = refl

is_empty-reverse : (s : Text) → is_empty (reverse s) ≡ is_empty s
is_empty-reverse [] = refl
is_empty-reverse (c ∷ s) = rw (reverse-cons c s) (is_empty-snoc (reverse s) c)

is_empty-strip : (s : Text) → is_empty (strip s) ≡ not (is_visible s)
unfolding strip
is_empty-strip s =
    is_empty-reverse (lstrip (reverse (lstrip s)))
    ∙ lstrip-visible (reverse (lstrip s))
    ∙ ap not (visible-reverse (lstrip s) ∙ visible-lstrip s)

visible-strip : (s : Text) → is_visible (strip s) ≡ is_visible s
unfolding strip
visible-strip s =
    visible-reverse (lstrip (reverse (lstrip s)))
    ∙ visible-lstrip (reverse (lstrip s))
    ∙ visible-reverse (lstrip s)
    ∙ visible-lstrip s

-- A stripped text with something in it is not stripped to nothing.
strip-strip : (s : Text) → is_empty (strip (strip s)) ≡ is_empty (strip s)
strip-strip s = is_empty-strip (strip s) ∙ ap not (visible-strip s) ∙ sym (is_empty-strip s)

pub text_of-fits :
    (value : Text) (limit : ℕ) (required : Bool) (t : Text)
    → text_of value limit required ≡ ok t
    → (ltb limit (length t) ≡ false) × ((required && is_empty (strip t)) ≡ false)
unfolding text_of
text_of-fits value limit required t h =
    let s = strip value in
    let (u, e, h1) = bind-eq-ok (refuse (required && is_empty s) empty_text) _ h in
    let (v, f, h2) = bind-eq-ok (refuse (ltb limit (length s)) long_text) _ h1 in
    let (w, g, h3) =
      bind-eq-ok (refuse (any is_control s || has_part (codes "<!--") s) many_lines) _ h2 in
    let same : s ≡ t = cc in
    rw (← same) (refuse-eq-ok _ _ f, rw (strip-strip value) (refuse-eq-ok _ _ e))

fits_lem :
    (t : Text) → ltb ref_limit (length t) ≡ false → is_empty (strip t) ≡ false → fits t ≡ true
unfolding strip
fits_lem [] short shown = cc
fits_lem (c ∷ t) short shown = ground arith

ref-fits : (r t : Text) → text_of r ref_limit true ≡ ok t → fits t ≡ true
ref-fits r t h =
    let (short, shown) = text_of-fits r ref_limit true t h in fits_lem t short (ground arith)

texts_of-fits : (rs ss : List Text) → texts_of rs ≡ ok ss → all fits ss ≡ true
unfolding texts_of
texts_of-fits [] ss h = let same : ss ≡ [] = cc in rw same refl
texts_of-fits (r ∷ rs) ss h =
    let (t, e, h1) = bind-eq-ok (text_of r ref_limit true) _ h in
    let (ts, f, h2) = bind-eq-ok (texts_of rs) _ h1 in
    let same : ss ≡ t ∷ ts = cc in rw same (ground (arith, ref-fits r t e, texts_of-fits rs ts f))

pub refs_of-fits :
    (rs ss : List Text)
    → refs_of rs ≡ ok ss
    → (ltb refs_limit (length ss) ≡ false) × (all fits ss ≡ true)
unfolding refs_of
refs_of-fits rs ss h =
    let (ts, e, h1) = bind-eq-ok (texts_of rs) _ h in
    let (u, f, h2) = bind-eq-ok (refuse (ltb refs_limit (length ts)) many_refs) _ h1 in
    let same : ss ≡ ts = cc in rw same (refuse-eq-ok _ _ f, texts_of-fits rs ts e)

-- Every dependency stands before the item, and is not the item.
abbrev pub are_earlier : Text → List Text → List Text → Bool
are_earlier id earlier = all (λ d. not (d =ᵗ id) && contains d earlier)

check_deps-earlier :
    (id : Text) (earlier ds : List Text)
    → check_deps id earlier ds ≡ ok tt
    → are_earlier id earlier ds ≡ true
unfolding check_deps
check_deps-earlier id earlier [] h = refl
check_deps-earlier id earlier (d ∷ ds) h = ground (arith, check_deps-earlier id earlier ds)

pub deps_of-earlier :
    (s : State) (id : Text) (deps ds : List Text)
    → deps_of s id deps ≡ ok ds
    → (distinct ds ≡ true) × (are_earlier id (earlier_ids id s.items s.archived) ds ≡ true)
unfolding deps_of
deps_of-earlier s id deps ds h =
    let (u, e, h1) = bind-eq-ok (guard (distinct deps) duplicate_dep) _ h in
    let (v, f, h2) = bind-eq-ok (check_deps id (earlier_ids id s.items s.archived) deps) _ h1 in
    let same : ds ≡ deps = cc in rw same (guard-eq-ok _ _ e, check_deps-earlier id _ deps f)
