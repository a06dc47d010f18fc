-- ===== src/Queue/Ids.antt =====
-- Item ids: `_ID`, `int(id[1:])` and `"Q%02d"`.
pub mod Bounds
use native.Mathlib.Nat.{pow-suc}
use agent_engineering_standa.Base.{
  ℕ, zero, suc, ◌+◌, ◌-◌, ◌*◌, ◌/◌, ◌%◌, ◌^◌, ◌≤◌, ◌<◌, ◌≡◌, refl, Bool, true, false, ◌&&◌, [], ◌∷◌,
  ◌++◌, arith, Text, is_digit, leb, ltb, ◌==◌, if◌then◌else◌, length, All, All-append,
  length-append, Bool-cases, ltb→lt, inl, inr, codes,
}

-- The leading digits of a text, and what follows them.
digits_of : Text → Text
digits_of [] = []
digits_of (c ∷ s) = let rest = digits_of s in if is_digit c then c ∷ rest else []

after_digits : Text → Text
after_digits [] = []
after_digits (c ∷ s) = let rest = after_digits s in if is_digit c then rest else c ∷ s

-- The end of the text, or of its only line: what `$` matches.
at_end : Text → Bool
at_end [] = true
at_end (c ∷ []) = c == 10
at_end _ = false

-- `_ID = ^Q[0-9]{2,6}$`
unfoldable pub is_id : Text → Bool
unfolding digits_of after_digits at_end is_digit
is_id [] = false
is_id (c ∷ s) =
    (c == b'Q')
    && leb 2 (length (digits_of s))
    && leb (length (digits_of s)) 6
    && at_end (after_digits s)

-- `int` of a text of digits, most significant first.
value_from : ℕ → Text → ℕ
value_from n [] = n
value_from n (c ∷ s) = value_from (n * 10 + (c - 48)) s

-- `int(id[1:])`, where `is_id id`: `int` ignores the newline that `$` lets through.
unfoldable pub id_number : Text → ℕ
unfolding digits_of value_from is_digit
id_number [] = 0
id_number (c ∷ s) = value_from 0 (digits_of s)

-- `"%d" % n`
decimal_from : ℕ → ℕ → Text
decimal_from zero n = []
decimal_from (suc f) n =
    let rest = decimal_from f (n / 10) in
    if ltb n 10 then (48 + n) ∷ [] else rest ++ ((48 + n % 10) ∷ [])

unfoldable pub decimal : ℕ → Text
unfolding decimal_from
decimal n = decimal_from (suc n) n

-- `"%02d" % n`
unfoldable pub padded : ℕ → Text
padded n = if ltb n 10 then 48 ∷ decimal n else decimal n

-- `"Q%02d" % n`
unfoldable pub make_id : ℕ → Text
make_id n = b'Q' ∷ padded n

abbrev Digit : ℕ → Type 0
Digit c = is_digit c ≡ true

digits_of-All : (s : Text) → All Digit s → digits_of s ≡ s
unfolding digits_of
digits_of-All [] h = refl
digits_of-All (c ∷ s) h = ground (arith, digits_of-All s)

after_digits-All : (s : Text) → All Digit s → after_digits s ≡ []
unfolding after_digits
after_digits-All [] h = refl
after_digits-All (c ∷ s) h = ground (arith, after_digits-All s)

value_from-snoc :
    (n c : ℕ) (s : Text) → value_from n (s ++ (c ∷ [])) ≡ value_from n s * 10 + (c - 48)
unfolding value_from
value_from-snoc n c [] = refl
value_from-snoc n c (d ∷ s) = value_from-snoc (n * 10 + (d - 48)) c s

digit_of_small : (n : ℕ) → n < 10 → is_digit (48 + n) ≡ true
unfolding is_digit
digit_of_small n h = ground arith

decimal_from-digits : (f n : ℕ) → All Digit (decimal_from f n)
unfolding decimal_from
decimal_from-digits zero n = tt
decimal_from-digits (suc f) n = elim (Bool-cases (ltb n 10)) [
  | inl small ↦ rw small (digit_of_small n (ltb→lt n 10 small), tt)
  | inr large ↦ rw large (
      All-append Digit (decimal_from f (n / 10)) _ (decimal_from-digits f (n / 10))
        (digit_of_small (n % 10) (omega arith), tt))
]

value_from-decimal_from : (f n : ℕ) → n < f → value_from 0 (decimal_from f n) ≡ n
unfolding decimal_from value_from
value_from-decimal_from zero n h = elim h [ ]
value_from-decimal_from (suc f) n h = elim (Bool-cases (ltb n 10)) [
  | inl small ↦ rw small (omega arith)
  | inr large ↦
      rw (large, value_from-snoc)
        (ground (arith, value_from-decimal_from f (n / 10) (ground arith)))
]

length-decimal_from : (k f n : ℕ) → n < f → n < 10 ^ suc k → length (decimal_from f n) ≤ suc k
unfolding decimal_from
length-decimal_from k zero n h b = elim h [ ]
length-decimal_from zero (suc f) n h b = ground arith
length-decimal_from (suc k) (suc f) n h b = elim (Bool-cases (ltb n 10)) [
  | inl small ↦ rw small (omega arith)
  | inr large ↦ rw large (
      omega (
        arith,
        length-append (decimal_from f (n / 10)) ((48 + n % 10) ∷ []),
        length-decimal_from k f (n / 10) (ground arith) (omega (arith, pow-suc 10 (suc k))),
      ))
]

length-decimal_from_pos : (f n : ℕ) → n < f → 1 ≤ length (decimal_from f n)
unfolding decimal_from
length-decimal_from_pos zero n h = elim h [ ]
length-decimal_from_pos (suc f) n h = elim (Bool-cases (ltb n 10)) [
  | inl small ↦ rw small (omega arith)
  | inr large ↦
      rw large (omega (arith, length-append (decimal_from f (n / 10)) ((48 + n % 10) ∷ [])))
]

length-decimal_from_two : (f n : ℕ) → n < f → 10 ≤ n → 2 ≤ length (decimal_from f n)
unfolding decimal_from
length-decimal_from_two zero n h t = elim h [ ]
length-decimal_from_two (suc f) n h t = elim (Bool-cases (ltb n 10)) [
  | inl small ↦ absurd (omega (arith, ltb→lt n 10 small))
  | inr large ↦ rw large (
      omega (
        arith,
        length-append (decimal_from f (n / 10)) ((48 + n % 10) ∷ []),
        length-decimal_from_pos f (n / 10) (ground arith),
      ))
]

decimal-digits : (n : ℕ) → All Digit (decimal n)
unfolding decimal
decimal-digits n = decimal_from-digits (suc n) n

value_from-decimal : (n : ℕ) → value_from 0 (decimal n) ≡ n
unfolding decimal
value_from-decimal n = value_from-decimal_from (suc n) n (omega arith)

padded-digits : (n : ℕ) → All Digit (padded n)
unfolding padded
padded-digits n = elim (Bool-cases (ltb n 10)) [
  | inl small ↦ rw small (digit_of_small 0 (omega arith), decimal-digits n)
  | inr large ↦ rw large (decimal-digits n)
]

value_from-zero : (s : Text) → value_from 0 (48 ∷ s) ≡ value_from 0 s
unfolding value_from
value_from-zero s = refl

value_from-padded : (n : ℕ) → value_from 0 (padded n) ≡ n
unfolding padded
value_from-padded n = ground (arith, value_from-decimal n, value_from-zero (decimal n))

length-decimal : (k n : ℕ) → n < 10 ^ suc k → length (decimal n) ≤ suc k
unfolding decimal
length-decimal k n h = length-decimal_from k (suc n) n (omega arith) h

length-decimal_pos : (n : ℕ) → 1 ≤ length (decimal n)
unfolding decimal
length-decimal_pos n = length-decimal_from_pos (suc n) n (omega arith)

length-decimal_two : (n : ℕ) → 10 ≤ n → 2 ≤ length (decimal n)
unfolding decimal
length-decimal_two n h = length-decimal_from_two (suc n) n (omega arith) h

length-padded : (n : ℕ) → n < 1000000 → (2 ≤ length (padded n)) × (length (padded n) ≤ 6)
unfolding padded
length-padded n h = elim (Bool-cases (ltb n 10)) [
  | inl small ↦
      rw small
        (omega (arith, length-decimal_pos n), omega (arith, length-decimal 0 n (ltb→lt n 10 small)))
  | inr large ↦
      rw large
        (omega (arith, length-decimal_two n (ground arith)), omega (arith, length-decimal 5 n h))
]

-- A made id reads back as its number.
pub id_number-make_id : (n : ℕ) → id_number (make_id n) ≡ n
unfolding id_number make_id
id_number-make_id n = rw (digits_of-All (padded n) (padded-digits n)) (value_from-padded n)

-- Below a million a made id is an id.
pub make_id-is_id : (n : ℕ) → n < 1000000 → is_id (make_id n) ≡ true
unfolding is_id make_id
make_id-is_id n h =
    let bounds = length-padded n h in
    rw (digits_of-All (padded n) (padded-digits n), after_digits-All (padded n) (padded-digits n))
      (ground arith)

id_of_seven : make_id 7 ≡ codes "Q07"
unfolding make_id padded decimal
id_of_seven = refl

-- `$` lets a final newline through.
is_id-newline : is_id (codes "Q07" ++ (10 ∷ [])) ≡ true
unfolding is_id
is_id-newline = refl
