-- ===== src/Plain.antt =====
-- The plain data that the deciding tools take: what `json.loads` makes of a document without
-- fractions, and the parts of Python that read it.
pub mod Findings
pub mod Corpus
pub mod Sound
use agent_engineering_standa.Base.{
  ℕ, Bool, true, false, ◌&&◌, not, Option, none, some, List, [], ◌∷◌, Text, ◌=ᵗ◌, Result, ok, err,
  ℤ, pos, negsuc, sameℤ, if◌then◌else◌,
}

mutual
  -- `field` adds a key in front; the first entry of a key is the one that is read.
  pub data Value : Type 0 where
    null : Value
    flag : Bool → Value
    number : ℤ → Value
    str : Text → Value
    array : Values → Value
    dict : Fields → Value

  pub data Values : Type 0 where
    empty : Values
    more : Value → Values → Values

  pub data Fields : Type 0 where
    bare : Fields
    field : Text → Value → Fields → Fields

-- What the code takes from the interpreter.
pub record Python : Type 0 where
  -- `repr`, which is also `str` of a value that is not a text, and `%d` of a number
  pub repr : Value → Text
  -- `int` of a text; `none` where it raises
  pub int : Text → Option ℤ
  -- `\d` of a regular expression
  pub is_decimal : ℕ → Bool
  -- `json.dumps(v, sort_keys=True)`, and the same without spaces
  pub dumps : Value → Text
  pub compact : Value → Text
  -- `hashlib.sha256(s.encode("utf-8")).hexdigest()`
  pub sha256 : Text → Text

-- The exceptions of `int`.
pub data Raised : Type 0 where
  value_error type_error : Raised

-- `d.get(key, default)`
unfoldable pub get_or : Text → Value → Fields → Value
get_or key default bare = default
get_or key default (field k v rest) =
    let later = get_or key default rest in if k =ᵗ key then v else later

-- `d.get(key)`
abbrev pub get : Text → Fields → Value
get key d = get_or key null d

-- `key in d`
unfoldable pub has_key : Text → Fields → Bool
has_key key bare = false
has_key key (field k v rest) = let later = has_key key rest in if k =ᵗ key then true else later

-- `bool(v)`
unfoldable pub truthy : Value → Bool
unfolding sameℤ
truthy null = false
truthy (flag b) = b
truthy (number n) = not (sameℤ n (pos 0))
truthy (str []) = false
truthy (str (c ∷ s)) = true
truthy (array empty) = false
truthy (array (more v vs)) = true
truthy (dict bare) = false
truthy (dict (field k v d)) = true

-- `x if isinstance(x, dict) else {}`
unfoldable pub fields_of : Value → Fields
fields_of (dict d) = d
fields_of _ = bare

-- `v == s`, for a text `s`.
unfoldable pub value_is : Text → Value → Bool
value_is s (str t) = s =ᵗ t
value_is s _ = false

module _ (py : Python) where
  -- `str(v)`
  unfoldable pub show : Value → Text
  show (str s) = s
  show v = py.repr v

  -- `str(v or "")`
  unfoldable pub show_or_empty : Value → Text
  unfolding show truthy
  show_or_empty v = if truthy v then show v else []

  -- `int(v)`
  unfoldable pub int_of : Value → Result Raised ℤ
  int_of (flag true) = ok (pos 1)
  int_of (flag false) = ok (pos 0)
  int_of (number n) = ok n
  int_of (str s) = elim (py.int s) [ none ↦ err value_error | some n ↦ ok n ]
  int_of _ = err type_error

  -- `int(v or 0)`
  unfoldable pub int_or_zero : Value → Result Raised ℤ
  unfolding truthy int_of
  int_or_zero v = let n = int_of v in if truthy v then n else ok (pos 0)
