-- ===== src/DenyGuards/Layers.antt =====
-- The loop over the layers of tools/deny_guards.py against a description without a state.
use agent_engineering_standa.Base.{
  ◌≡◌, refl, Bool, true, false, ◌&&◌, ◌||◌, none, some, List, [], ◌∷◌, Text, codes, ◌=ᵗ◌, =ᵗ_sound,
  any, arith,
}
use agent_engineering_standa.DenyGuards.Decide.{
  Walked, forced, ended, denying, allowing, walk_layers,
}

abbrev pub some_denies : List (Text × Text) → Bool
some_denies = any (λ (l : Text × Text). denying l.1)

abbrev pub some_allows : List (Text × Text) → Bool
some_allows = any (λ (l : Text × Text). allowing l.1)

-- A layer allows after a layer that denied.
abbrev pub allows_later : List (Text × Text) → Bool
allows_later [] = false
allows_later (l ∷ ls) = denying l.1 && some_allows ls || allows_later ls

abbrev pub is_forced : Walked → Bool
is_forced (forced layer first) = true
is_forced (ended denied) = false

abbrev pub is_denied : Walked → Bool
is_denied (forced layer first) = true
is_denied (ended (some layer)) = true
is_denied (ended none) = false

-- A verdict does not deny and allow.
denying-allowing : (v : Text) → denying v ≡ true → allowing v ≡ false
unfolding ◌=ᵗ◌
denying-allowing v d = let same = =ᵗ_sound v (codes "DENY") d in rw same refl

later_some : (ls : List (Text × Text)) → allows_later ls ≡ true → some_allows ls ≡ true
later_some [] h = h
later_some (l ∷ ls) h = ground (arith, later_some ls)

walk_layers-denied :
    (first : Text) (ls : List (Text × Text))
    → (is_forced (walk_layers (some first) ls) ≡ some_allows ls)
      × (is_denied (walk_layers (some first) ls) ≡ true)
unfolding walk_layers
walk_layers-denied first [] = (refl, refl)
walk_layers-denied first ((layer, v) ∷ ls) =
    let (f, d) = walk_layers-denied first ls in (ground arith, ground arith)

pub walk_layers-none :
    (ls : List (Text × Text))
    → (is_forced (walk_layers none ls) ≡ allows_later ls)
      × (is_denied (walk_layers none ls) ≡ some_denies ls)
unfolding walk_layers
walk_layers-none [] = (refl, refl)
walk_layers-none ((layer, v) ∷ ls) =
    let (f, d) = walk_layers-none ls in
    let (g, e) = walk_layers-denied layer ls in
    (ground (arith, denying-allowing v, later_some ls), ground (arith, denying-allowing v))
