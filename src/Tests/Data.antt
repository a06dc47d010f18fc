-- ===== src/Tests/Data.antt =====
-- A codec that tells ten events apart, a queue and a context.
use agent_engineering_standa.Base.{
  ℕ, ◌+◌, ◌%◌, ◌≡◌, refl, true, none, some, [], ◌∷◌, Text, codes, arith, is_digit, inl, inr,
}
use agent_engineering_standa.Queue.Types.{State, Item, pending, active, Event, shaped, Context}
use agent_engineering_standa.Queue.Validate.{is_hex}
use agent_engineering_standa.Queue.History.{Codec}
use agent_engineering_standa.Queue.History.Links.{NoCollision}

abbrev zeros : Text
zeros = codes "000000000000000000000000000000000000000000000000000000000000000"

-- 64 digits, the first of which tells the numbers 0 to 9 apart.
abbrev pub digest_of : Text → Text
digest_of [] = 48 ∷ zeros
digest_of (n ∷ s) = (48 + n % 10) ∷ zeros

abbrev pub codec : Codec
codec = record { canonical = λ b. b.seq ∷ []; sha256 = digest_of; size = λ s. 100 }

digit : (n : ℕ) → is_digit (48 + n % 10) ≡ true
unfolding is_digit
digit n = ground arith

pub digest_of-hex : (t : Text) → is_hex (digest_of t) ≡ true
unfolding is_hex
digest_of-hex [] = refl
digest_of-hex (n ∷ s) = ground arith

abbrev pub ctx : Context
ctx = record {
  actor = codes "owner";
  harness = codes "shell";
  provider = codes "unknown";
  at = codes "2026-11-25T10:00:00Z";
}

abbrev pub first_item : Item
first_item = record {
  id = codes "Q01";
  title = codes "First";
  refs = codes "o/r#1" ∷ [];
  status = active;
  note = [];
  depends_on = [];
}

abbrev pub second_item : Item
second_item = record {
  id = codes "Q02";
  title = codes "Second";
  refs = [];
  status = pending;
  note = [];
  depends_on = codes "Q00" ∷ [];
}

abbrev pub queue : State
queue = record {
  version = 2;
  owner = codes "owner";
  next_id = 3;
  items = first_item ∷ second_item ∷ [];
  archived = codes "Q00" ∷ [];
  history = record { seq = 0; head = none };
  handoff = none;
  max_active = some 2;
}

-- A log of one event has no collision.
pub NoCollision-one : (e : Event) → NoCollision codec (shaped e ∷ [])
NoCollision-one e = record {
  same = λ a b i j v w h. elim i [
    | inl p ↦ elim j [ inl q ↦ cc | inr r ↦ absurd r ]
    | inr r ↦ absurd r
  ];
}
