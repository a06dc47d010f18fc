-- ===== src/Plain/Corpus/Clear.antt =====
-- What it means that a corpus check adds nothing to its findings.
use agent_engineering_standa.Base.{
  ◌≡◌, refl, sym, ap, ◌∙◌, Bool, true, false, not, List, [], ◌∷◌, ◌++◌, Text, ok, err, ◌>>=◌,
  bind-eq-ok, Result, =ᵗ_sound, if◌then◌else◌,
}
use agent_engineering_standa.Plain.{Value, null, flag, number, array, str, dict, Raised, value_is}
use agent_engineering_standa.Plain.Corpus.{flaw_if}

abbrev pub Validated : Type 0 → Type 0
Validated F = Result Raised (List F × List Value)

module _ {F : Type 0} where
  pub append-nil : (xs ys : List F) → xs ++ ys ≡ [] → (xs ≡ []) × (ys ≡ [])
  append-nil [] ys h = (refl, h)
  append-nil (x ∷ xs) ys h = absurd (cc)

  pub flaw_unless-nil : (b : Bool) (f : F) → flaw_if (not b) f ≡ [] → b ≡ true
  flaw_unless-nil true f h = refl
  flaw_unless-nil false f h = cc

  pub flaw_if-nil : (b : Bool) (f : F) → flaw_if b f ≡ [] → b ≡ false
  flaw_if-nil true f h = cc
  flaw_if-nil false f h = refl

  pub ok-nil :
      (xs ys : List F)
      → ◌≡◌ {A = Result Raised (List F)} (ok (xs ++ ys)) (ok [])
      → (xs ≡ []) × (ys ≡ [])
  ok-nil xs ys h = append-nil xs ys (cc)

  -- A flaw that is added is never none.
  pub added-not_nil : (r : Result Raised (List F)) (f : F) → (r >>= λ fs. ok (f ∷ fs)) ≡ ok [] → ⊥
  added-not_nil (ok fs) f h = cc
  added-not_nil (err e) f h = cc

  pub checked-nil :
      (a b : Bool) (shape : List F) (x y : F) (rest : Result Raised (List F))
      → (if a
          then ok (shape ++ (x ∷ []))
          else if b
          then ok (shape ++ (y ∷ []))
          else rest >>= λ wrong. ok (shape ++ wrong))
        ≡ ok []
      → (shape ≡ []) × (rest ≡ ok [])
  checked-nil true b shape x y rest h = let (a, later) = ok-nil shape (x ∷ []) h in absurd (cc)
  checked-nil false true shape x y rest h = let (a, later) = ok-nil shape (y ∷ []) h in absurd (cc)
  checked-nil false false shape x y rest h =
      let (wrong, e, made) = bind-eq-ok rest _ h in
      let (none_before, nothing) = ok-nil shape wrong made in (none_before, e ∙ ap ok nothing)

  pub returned-nil :
      (r : Result Raised (List F)) (all es : List Value)
      → ◌≡◌ {A = Validated F} (◌>>=◌ {B = List F × List Value} r (λ fs. ok (fs, all))) (ok ([], es))
      → (r ≡ ok []) × (all ≡ es)
  returned-nil (ok fs) all es h = (cc, cc)
  returned-nil (err e) all es h = absurd (cc)

  pub frozen-nil :
      (a b : Bool) (x y : F) (r : Result Raised (List F)) (all es : List Value)
      → ◌≡◌ {A = Validated F}
          (if◌then◌else◌ {A = Validated F} a (ok (x ∷ [], [])) (
            if◌then◌else◌ {A = Validated F} b
              (ok (y ∷ [], []))
              (◌>>=◌ {B = List F × List Value} r (λ fs. ok (fs, all)))))
          (ok ([], es))
      → (r ≡ ok []) × (all ≡ es)
  frozen-nil true b x y r all es h = absurd (cc)
  frozen-nil false true x y r all es h = absurd (cc)
  frozen-nil false false x y r all es h = returned-nil r all es h

  pub ok-parts :
      {a : List F} {b : List Value} {c : List F} {d : List Value}
      → ◌≡◌ {A = Validated F} (ok (a, b)) (ok (c, d))
      → (a ≡ c) × (b ≡ d)
  ok-parts h = (cc, cc)

  pub passed :
      (a b : Bool) (x y : F) (r : Validated F) (es : List Value)
      → ◌≡◌ {A = Validated F}
          (if◌then◌else◌ {A = Validated F} a
            (ok (x ∷ [], []))
            (if◌then◌else◌ {A = Validated F} b (ok (y ∷ [], [])) r))
          (ok ([], es))
      → r ≡ ok ([], es)
  passed true b x y r es h = absurd (cc)
  passed false true x y r es h = absurd (cc)
  passed false false x y r es h = h

pub value_is-str : (s : Text) (v : Value) → value_is s v ≡ true → v ≡ str s
unfolding value_is
value_is-str s (str t) h = ap str (sym (=ᵗ_sound s t h))
value_is-str s null h = cc
value_is-str s (flag b) h = cc
value_is-str s (number n) h = cc
value_is-str s (array vs) h = cc
value_is-str s (dict d) h = cc
