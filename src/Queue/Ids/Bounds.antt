-- ===== src/Queue/Ids/Bounds.antt =====
-- Which numbers `"Q%02d"` makes ids of, for `_ID` of tools/queue_core.py.
use native.Mathlib.Nat.{pow-suc}
use agent_engineering_standa.Base.{
  ℕ, zero, suc, ◌/◌, ◌%◌, ◌+◌, ◌^◌, ◌≤◌, ◌<◌, ◌≡◌, ◌↔◌, true, [], ◌∷◌, arith, ltb, length,
  length-append, Bool-cases, ltb→lt, inl, inr,
}
use agent_engineering_standa.Queue.Ids.{
  is_id, id_number, make_id, decimal, decimal_from, padded, digits_of-All, padded-digits,
  length-decimal_from_pos, id_number-make_id, make_id-is_id,
}

pow_pos : (k : ℕ) → 1 ≤ 10 ^ k
pow_pos zero = omega arith
pow_pos (suc k) = omega (arith, pow-suc 10 k, pow_pos k)

le-length-decimal_from : (k f n : ℕ) → n < f → 10 ^ k ≤ n → suc k ≤ length (decimal_from f n)
unfolding decimal_from
le-length-decimal_from k zero n h b = elim h [ ]
le-length-decimal_from zero (suc f) n h b = length-decimal_from_pos (suc f) n h
le-length-decimal_from (suc k) (suc f) n h b = elim (Bool-cases (ltb n 10)) [
  | inl small ↦ absurd (omega (arith, ltb→lt n 10 small, pow-suc 10 k, pow_pos k))
  | inr large ↦ rw large (
      omega (
        arith,
        length-append (decimal_from f (n / 10)) ((48 + n % 10) ∷ []),
        le-length-decimal_from k f (n / 10) (ground arith) (omega (arith, pow-suc 10 k)),
      ))
]

le-length-padded : (n : ℕ) → 1000000 ≤ n → 7 ≤ length (padded n)
unfolding padded decimal
le-length-padded n h = let long = le-length-decimal_from 6 (suc n) n (omega arith) h in ground arith

is_id-short : (n : ℕ) → is_id (make_id n) ≡ true → length (padded n) ≤ 6
unfolding is_id make_id
is_id-short n h = let digits = digits_of-All (padded n) (padded-digits n) in ground (arith, digits)

-- What is made of a number is an id exactly below 1,000,000, and reads back as that number always.
pub make_id_iff :
    (n : ℕ) → ((is_id (make_id n) ≡ true) ↔ (n < 1000000)) × (id_number (make_id n) ≡ n)
make_id_iff n = ((λ h. below h, make_id-is_id n), id_number-make_id n)
  where
    below : is_id (make_id n) ≡ true → n < 1000000
    below h = elim (Bool-cases (ltb n 1000000)) [
      | inl small ↦ ltb→lt n 1000000 small
      | inr large ↦ absurd (omega (arith, is_id-short n h, le-length-padded n (ground arith)))
    ]
