-- ===== src/Lease/Messages.antt =====
-- tools/writer_lease.py: the texts of the findings.
use agent_engineering_standa.Base.{List, [], ◌∷◌, Text, codes, ◌++◌, ℤ, map}
use agent_engineering_standa.Plain.{number, str, Python, get}
use agent_engineering_standa.Lease.Types.{Operation, op_name, operations}

-- `", ".join(texts)`
abbrev pub join_commas : List Text → Text
join_commas [] = []
join_commas (s ∷ []) = s
join_commas (s ∷ ss) = s ++ (codes ", " ++ join_commas ss)

-- Parts of a formatted text in a row.
abbrev pub joined : List Text → Text
joined [] = []
joined (s ∷ ss) = s ++ joined ss

unfoldable pub owner_needed : Text
owner_needed =
    codes "owner recovery needs the owner login plus a stuck lease: silent override never releases"

unfoldable pub workspace_gone : Text
workspace_gone =
    codes "cloud workspace lost: reconcile against branch/commits/report state before writing"

unfoldable pub split : Text
split = codes "network partition: both sides fence; the newer generation wins on reconcile"

unfoldable pub dead : Text
dead = codes "holder process dead: recover the lease via CAS at a new generation"

unfoldable pub no_recipient : Text
no_recipient = codes "transfer names no recipient: transfer moves the holder forward one generation"

module _ (py : Python) where
  quoted : Text → Text
  quoted s = py.repr (str s)

  shown : ℤ → Text
  shown n = py.repr (number n)

  holder : Operation → Text
  holder item = py.repr (get (codes "holder") item.lease)

  unfoldable pub unknown_operation : Operation → Text
  unfolding quoted
  unknown_operation item = joined (
      codes "unknown operation "
      ∷ quoted item.op
      ∷ codes ": use one of "
      ∷ join_commas (map op_name operations)
      ∷ [])

  unfoldable pub owner_released : Text → Operation → Text
  unfolding quoted holder
  owner_released owner_login item = joined (
      codes "owner "
      ∷ quoted owner_login
      ∷ codes " explicitly released the stuck lease held by "
      ∷ holder item
      ∷ codes ": the slice is free"
      ∷ [])

  unfoldable pub already_leased : Operation → ℤ → Text
  unfolding quoted holder shown
  already_leased item generation = joined (
      codes "slice "
      ∷ quoted item.slice
      ∷ codes " already leased to "
      ∷ holder item
      ∷ codes " at generation "
      ∷ shown generation
      ∷ codes ": one writer only"
      ∷ [])

  unfoldable pub none_held : Operation → Text
  unfolding quoted
  none_held item = joined (
      codes "no lease held for slice "
      ∷ quoted item.slice
      ∷ codes ": acquire before "
      ∷ item.op
      ∷ [])

  unfoldable pub superseded : Operation → ℤ → Text
  unfolding shown
  superseded item generation = joined (
      codes "heartbeat on superseded generation "
      ∷ shown item.generation
      ∷ codes " (lease at "
      ∷ shown generation
      ∷ codes "): only the current generation heartbeats"
      ∷ [])

  unfoldable pub behind : Operation → ℤ → Text
  unfolding shown
  behind item generation = joined (
      codes "operation generation "
      ∷ shown item.generation
      ∷ codes " behind lease generation "
      ∷ shown generation
      ∷ codes ": a stale writer is fenced"
      ∷ [])

  unfoldable pub past_deadline : Operation → ℤ → Text
  unfolding shown
  past_deadline item deadline = joined (
      codes "lease expired ("
      ∷ shown item.ticks_since_heartbeat
      ∷ codes " ticks past heartbeat, deadline "
      ∷ shown deadline
      ∷ codes "): re-acquire via CAS"
      ∷ [])

  unfoldable pub provider_moved_text : Operation → Text
  unfolding quoted
  provider_moved_text item = joined (
      codes "holder moved provider "
      ∷ py.repr (get (codes "provider") item.lease)
      ∷ codes " -> "
      ∷ quoted item.provider
      ∷ codes " without transfer: transfer the lease forward one generation"
      ∷ [])

  unfoldable pub not_holder : Operation → Text
  unfolding quoted holder
  not_holder item = joined (
      codes "release by "
      ∷ quoted item.agent
      ∷ codes " refused: only holder "
      ∷ holder item
      ∷ codes " releases"
      ∷ [])

  unfoldable pub released_text : Operation → ℤ → Text
  unfolding holder shown
  released_text item generation = joined (
      codes "holder "
      ∷ holder item
      ∷ codes " released generation "
      ∷ shown generation
      ∷ codes ": the slice is free"
      ∷ [])
