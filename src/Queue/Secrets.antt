-- ===== src/Queue/Secrets.antt =====
-- tools/queue_core.py, `_strings`, SECRET_PATTERNS and `scan_secrets`. The keys of the dictionaries
-- and the names of operations and statuses are fixed words that no pattern matches, so only the
-- texts that callers supply, and computed digests, are listed.
use agent_engineering_standa.Base.{
  ℕ, zero, suc, Bool, true, false, ◌&&◌, ◌||◌, Option, none, some, List, [], ◌∷◌, ◌++◌, Text, codes,
  starts_with, leb, ◌==◌, is_digit, ok, refuse, ◌>>◌, if◌then◌else◌,
}
use agent_engineering_standa.Queue.Types.{
  Item, State, Handoff, LegacyItem, Draft, Payload, nothing, text, number, status, whole, details,
  founded, place, placed, limited, digest, legacy, legacy_item, migrated, Event, Outcome, secret,
}

is_upper : ℕ → Bool
is_upper c = leb b'A' c && leb c b'Z'

is_alnum : ℕ → Bool
unfolding is_upper is_digit
is_alnum c = is_digit c || is_upper c || leb b'a' c && leb c b'z'

-- `[class]{n,}` at the start of a text.
run_of : (ℕ → Bool) → ℕ → Text → Bool
run_of p zero s = true
run_of p (suc n) [] = false
run_of p (suc n) (c ∷ s) = p c && run_of p n s

-- What follows a literal at the start of a text.
after_literal : Text → Text → Option Text
after_literal [] s = some s
after_literal (d ∷ t) [] = none
after_literal (d ∷ t) (c ∷ s) = let rest = after_literal t s in if c == d then rest else none

abbrev then_run : (ℕ → Bool) → ℕ → Option Text → Bool
then_run p n none = false
then_run p n (some s) = run_of p n s

-- `literal[class]{n,}` at the start of a text.
prefixed : Text → (ℕ → Bool) → ℕ → Text → Bool
unfolding run_of after_literal
prefixed literal p n s = then_run p n (after_literal literal s)

-- `gh[pousr]_[A-Za-z0-9]{36,}`
github_token : Text → Bool
unfolding prefixed is_alnum
github_token s =
    prefixed (codes "ghp_") is_alnum 36 s
    || prefixed (codes "gho_") is_alnum 36 s
    || prefixed (codes "ghu_") is_alnum 36 s
    || prefixed (codes "ghs_") is_alnum 36 s
    || prefixed (codes "ghr_") is_alnum 36 s

is_word : ℕ → Bool
unfolding is_alnum
is_word c = is_alnum c || c == b'_'

is_word_or_dash : ℕ → Bool
unfolding is_word
is_word_or_dash c = is_word c || c == b'-'

is_upper_or_digit : ℕ → Bool
unfolding is_upper is_digit
is_upper_or_digit c = is_upper c || is_digit c

is_alnum_or_dash : ℕ → Bool
unfolding is_alnum
is_alnum_or_dash c = is_alnum c || c == b'-'

-- `[A-Z ]*PRIVATE KEY-----` at the start of a text.
key_header : Text → Bool
unfolding starts_with is_upper
key_header [] = false
key_header (c ∷ s) =
    starts_with (c ∷ s) (codes "PRIVATE KEY-----") || (is_upper c || c == b' ') && key_header s

abbrev then_key_header : Option Text → Bool
then_key_header none = false
then_key_header (some s) = key_header s

-- `xox[abprs]-[A-Za-z0-9-]{10,}`
slack_token : Text → Bool
unfolding prefixed is_alnum_or_dash
slack_token s =
    prefixed (codes "xoxa-") is_alnum_or_dash 10 s
    || prefixed (codes "xoxb-") is_alnum_or_dash 10 s
    || prefixed (codes "xoxp-") is_alnum_or_dash 10 s
    || prefixed (codes "xoxr-") is_alnum_or_dash 10 s
    || prefixed (codes "xoxs-") is_alnum_or_dash 10 s

-- SECRET_PATTERNS, each at the start of a text.
secret_patterns : List (Text → Bool)
unfolding github_token prefixed is_word is_word_or_dash is_upper_or_digit key_header slack_token
secret_patterns =
    github_token
    ∷ prefixed (codes "github_pat_") is_word 22
    ∷ prefixed (codes "sk-") is_word_or_dash 20
    ∷ prefixed (codes "AKIA") is_upper_or_digit 16
    ∷ (λ s. then_key_header (after_literal (codes "-----BEGIN ") s))
    ∷ slack_token
    ∷ []

-- `pattern.search`
search_text : (Text → Bool) → Text → Bool
search_text p [] = p []
search_text p (c ∷ s) = p (c ∷ s) || search_text p s

scan_patterns : ℕ → List (Text → Bool) → Text → Outcome (Unit {0})
unfolding search_text
scan_patterns n [] s = ok tt
scan_patterns n (p ∷ ps) s = do refuse (search_text p s) (secret n); scan_patterns (suc n) ps s

unfoldable pub scan_secrets : List Text → Outcome (Unit {0})
unfolding scan_patterns secret_patterns
scan_secrets [] = ok tt
scan_secrets (s ∷ ss) = do scan_patterns 1 secret_patterns s; scan_secrets ss

abbrev pub some_text : Option Text → List Text
some_text none = []
some_text (some t) = t ∷ []

some_texts : Option (List Text) → List Text
some_texts none = []
some_texts (some ts) = ts

item_strings : Item → List Text
item_strings i = i.id ∷ i.title ∷ i.note ∷ (i.refs ++ i.depends_on)

items_strings : List Item → List Text
unfolding item_strings
items_strings [] = []
items_strings (i ∷ is) = item_strings i ++ items_strings is

handoff_strings : Option Handoff → List Text
handoff_strings none = []
handoff_strings (some h) = h.sha256 ∷ []

unfoldable pub state_strings : State → List Text
unfolding items_strings handoff_strings
state_strings s =
    s.owner
    ∷ (items_strings s.items
        ++ (s.archived ++ (some_text s.history.head ++ handoff_strings s.handoff)))

legacy_item_strings : LegacyItem → List Text
legacy_item_strings i = i.id ∷ i.title ∷ i.note ∷ i.refs

legacy_strings : List LegacyItem → List Text
unfolding legacy_item_strings
legacy_strings [] = []
legacy_strings (i ∷ is) = legacy_item_strings i ++ legacy_strings is

payload_strings : Payload → List Text
unfolding some_texts item_strings legacy_strings
payload_strings nothing = []
payload_strings (text t) = t ∷ []
payload_strings (number n) = []
payload_strings (status s) = []
payload_strings (whole i) = item_strings i
payload_strings (details d) =
    some_text d.title ++ (some_texts d.refs ++ (some_text d.note ++ some_texts d.depends_on))
payload_strings (founded o) = o ∷ []
payload_strings (place p) = some_text p
payload_strings (placed p a) = a ∷ some_text p
payload_strings (limited n a) = a ∷ []
payload_strings (digest d n) = d ∷ []
payload_strings (legacy v1) = legacy_strings v1.items
payload_strings (legacy_item i) = legacy_item_strings i
payload_strings (migrated n o) = o ∷ []

draft_strings : Draft → List Text
unfolding payload_strings
draft_strings d =
    some_text d.item
    ++ (payload_strings d.before ++ (payload_strings d.after ++ (d.reason ∷ some_text d.text)))

event_strings : Event → List Text
unfolding draft_strings
event_strings e =
    e.hash
    ∷ e.body.context.at
    ∷ e.body.context.actor
    ∷ e.body.context.harness
    ∷ e.body.context.provider
    ∷ (some_text e.body.prev ++ draft_strings e.body.draft)

unfoldable pub events_strings : List Event → List Text
unfolding event_strings
events_strings [] = []
events_strings (e ∷ es) = event_strings e ++ events_strings es
