-- ===== src/Lease/Granted.antt =====
-- tools/writer_lease.py: which operations `decide` grants.
use agent_engineering_standa.Base.{
  ◌≡◌, ◌↔◌, ◌⊎◌, inl, inr, true, false, some, arith, ℤ, ltℤ, sameℤ, Option-cases,
}
use agent_engineering_standa.Plain.{Python}
use agent_engineering_standa.Lease.Types.{
  Op, acquire, heartbeat, transfer, release, write, reconcile, owner_recover, op_of, granted,
  Operation,
}
use agent_engineering_standa.Lease.Decide.{
  heartbeat_deadline, held, nonempty, provider_moved, refuse_for, recover_for, concluded, recovered,
  fenced, decided, decision,
}

-- The operations of a holder that end in a grant once the lease is found in order.
abbrev pub IsProceeding : Op → Operation → ℤ → Type 0
IsProceeding heartbeat item generation = sameℤ item.generation generation ≡ true
IsProceeding write item generation = Unit
IsProceeding reconcile item generation = Unit
IsProceeding transfer item generation = nonempty item.transfer_to ≡ true
IsProceeding _ item generation = ⊥

-- The lease is held, not ahead of the operation, fresh, with the same provider, and its workspace
-- and its holder are there.
abbrev pub IsInOrder : Op → Operation → ℤ → Type 0
IsInOrder op item generation =
    (held item ≡ true)
    × (ltℤ item.generation generation ≡ false)
    × (ltℤ heartbeat_deadline item.ticks_since_heartbeat ≡ false)
    × (provider_moved op item ≡ false)
    × (item.workspace_present ≡ true)
    × (item.partitioned ≡ false)
    × (item.holder_alive ≡ true)

abbrev pub IsGranted : Op → Operation → ℤ → Type 0
IsGranted op item generation =
    (item.read_only ≡ true)
    ⊎ (((op ≡ acquire) × (held item ≡ false))
        ⊎ (IsInOrder op item generation × IsProceeding op item generation))

module _ (py : Python) (item : Operation) (generation : ℤ) where
  decided-IsGranted :
      (op : Op) → (decided py op item generation).verdict ≡ granted → IsGranted op item generation
  unfolding decided fenced recovered concluded refuse_for recover_for
  decided-IsGranted acquire h = ground arith
  decided-IsGranted heartbeat h = ground arith
  decided-IsGranted transfer h = ground arith
  decided-IsGranted release h = ground arith
  decided-IsGranted write h = ground arith
  decided-IsGranted reconcile h = ground arith
  decided-IsGranted owner_recover h = ground arith

  IsGranted-decided :
      (op : Op)
      → item.read_only ≡ false
      → IsGranted op item generation
      → (decided py op item generation).verdict ≡ granted
  unfolding decided fenced recovered concluded refuse_for recover_for
  IsGranted-decided acquire r h = ground arith
  IsGranted-decided heartbeat r h = ground arith
  IsGranted-decided transfer r h = ground arith
  IsGranted-decided release r h = ground arith
  IsGranted-decided write r h = ground arith
  IsGranted-decided reconcile r h = ground arith
  IsGranted-decided owner_recover r h = ground arith

  decision-IsGranted :
      (decision py item generation).verdict ≡ granted
      → (op : Op) × (op_of item.op ≡ some op) × IsGranted op item generation
  unfolding decision refuse_for
  decision-IsGranted h = elim (Option-cases (op_of item.op)) [
    | inl e ↦ absurd (ground arith)
    | inr (op, e) ↦ (op, e, ground (arith, decided-IsGranted op))
  ]

  IsGranted-decision :
      (op : Op)
      → op_of item.op ≡ some op
      → IsGranted op item generation
      → (decision py item generation).verdict ≡ granted
  unfolding decision
  IsGranted-decision op e h = ground (arith, IsGranted-decided op)

  -- An operation is granted exactly when its name is one of OPERATIONS and the agent is read-only,
  -- or it acquires a lease that nobody holds, or it meets a lease that is held, not of a later
  -- generation than the operation, within its heartbeat deadline, not moved to another provider but
  -- where the operation transfers it or names a recipient, with its workspace present, no partition
  -- and its holder alive, and is a write, a reconcile, a heartbeat of the lease's own generation, or a
  -- transfer that names its recipient.
  pub grant_iff :
      ((decision py item generation).verdict ≡ granted)
      ↔ ((op : Op) × (op_of item.op ≡ some op) × IsGranted op item generation)
  grant_iff = (decision-IsGranted, λ (op, e, h). IsGranted-decision op e h)
