-- ===== src/Indexer/Cursor/Scan.antt =====
-- The comparison of persisted checkpoints with the remote ledgers: what it confirms, and where the
-- last common checkpoint lies.
use bc_forge.Common.{
  ℕ, ◌-◌, ◌<◌, ◌≤◌, ◌≡◌, refl, ap, ◌∙◌, ◌⊎◌, inl, inr, true, false, Option, none, some, List, [],
  ◌∷◌, arith, eq_iff, Bool-cases, Option-cases, All,
}
use bc_forge.Indexer.Database.{LedgerCoordinate, CursorRow}
use bc_forge.Indexer.Database.Checkpoints.{Listed, IsAscending, All-Listed}
use bc_forge.Indexer.Cursor.{
  find_remote, is_confirmed, scan_checkpoints, is_same, is_cursor_mismatch, previous_common,
  compare_checkpoints,
}

-- The ledger that a last common checkpoint rewinds to.
abbrev pub level : Option LedgerCoordinate → ℕ
level none = 0
level (some c) = c.ledger

abbrev pub AreAbove : ℕ → List LedgerCoordinate → Type 0
AreAbove n cs = All (λ d. n < d.ledger) cs

-- A scanned checkpoint is confirmed if there was no mismatch, or if it is not above the last common
-- one.
scan_checkpoints-confirms :
    (remote cs : List LedgerCoordinate) (common : Option LedgerCoordinate) (c : LedgerCoordinate)
    → IsAscending cs
    → AreAbove (level common) cs
    → Listed c cs
    → let (last, mismatch) = scan_checkpoints remote common cs in
      (mismatch ≡ false) ⊎ (c.ledger ≤ level last) → is_confirmed remote c ≡ true
unfolding scan_checkpoints
scan_checkpoints-confirms remote [] common c asc above l h = absurd l
scan_checkpoints-confirms remote (x ∷ xs) common c asc above l h =
    elim (Bool-cases (is_confirmed remote x)) [
      | inl ok ↦
          scanned (λ m. scan_checkpoints-confirms remote xs (some x) c asc.1 asc.0 m (rw ok at h))
            ok l
      | inr bad ↦
          absurd (ground (arith, bad, All-Listed (λ d. level common < d.ledger) c (x ∷ xs) above l))
    ]
  where
    scanned :
        (Listed c xs → is_confirmed remote c ≡ true)
        → is_confirmed remote x ≡ true
        → Listed c (x ∷ xs)
        → is_confirmed remote c ≡ true
    scanned ih ok (inl e) = rw (← e) ok
    scanned ih ok (inr m) = ih m

-- The last common checkpoint of a scan: the one it began with, or a confirmed one of the list.
data IsCommon (remote cs : List LedgerCoordinate) (common last : Option LedgerCoordinate)
    : Type 0 where
  old : last ≡ common → IsCommon remote cs common last
  new :
      (c : LedgerCoordinate)
      → last ≡ some c
      → Listed c cs
      → is_confirmed remote c ≡ true
      → IsCommon remote cs common last

scan_checkpoints-IsCommon :
    (remote cs : List LedgerCoordinate) (common : Option LedgerCoordinate)
    → IsCommon remote cs common (scan_checkpoints remote common cs).0
unfolding scan_checkpoints
scan_checkpoints-IsCommon remote [] common = old refl
scan_checkpoints-IsCommon remote (x ∷ xs) common = elim (Bool-cases (is_confirmed remote x)) [
  | inl ok ↦ rw ok (further ok (scan_checkpoints-IsCommon remote xs (some x)))
  | inr bad ↦ rw bad (old refl)
]
  where
    further :
        {last : Option LedgerCoordinate}
        → is_confirmed remote x ≡ true
        → IsCommon remote xs (some x) last
        → IsCommon remote (x ∷ xs) common last
    further ok (old e) = new x e (inl refl) ok
    further ok (new c e m k) = new c e (inr m) k

find_remote-ledger :
    (n : ℕ) (remote : List LedgerCoordinate) (r : LedgerCoordinate)
    → find_remote n remote ≡ some r
    → r.ledger ≡ n
unfolding find_remote
find_remote-ledger n [] r h = absurd (ground arith)
find_remote-ledger n (x ∷ xs) r h = elim (Option-cases (find_remote n xs)) [
  | inl missing ↦ ground arith
  | inr (c, found) ↦ ground (arith, find_remote-ledger n xs c found)
]

-- The remote ledger of number `c.ledger` has the hash of `c`.
abbrev pub IsOnRemote : List LedgerCoordinate → LedgerCoordinate → Type 0
IsOnRemote remote c =
    (r : LedgerCoordinate) × (find_remote c.ledger remote ≡ some r) × (r.hash ≡ c.hash)

is_confirmed-IsOnRemote :
    (remote : List LedgerCoordinate) (c : LedgerCoordinate)
    → is_confirmed remote c ≡ true
    → IsOnRemote remote c
unfolding is_confirmed
is_confirmed-IsOnRemote remote c h = elim (Option-cases (find_remote c.ledger remote)) [
  | inl missing ↦ absurd (ground arith)
  | inr (r, found) ↦ (r, found, ground (arith, eq_iff r.hash c.hash))
]

abbrev pub IsOnRemoteIfAny : List LedgerCoordinate → Option LedgerCoordinate → Type 0
IsOnRemoteIfAny remote none = Unit
IsOnRemoteIfAny remote (some c) = IsOnRemote remote c

-- The checkpoint that a rollback goes to lies on the remote chain, at the cursor or before it.
pub record IsAnchor (remote : List LedgerCoordinate) (n : ℕ) (common : Option LedgerCoordinate)
    : Type 0 where
  pub within : level common ≤ n
  pub on_remote : IsOnRemoteIfAny remote common

none-IsAnchor : (remote : List LedgerCoordinate) (n : ℕ) → IsAnchor remote n none
none-IsAnchor remote n = record { within = omega arith; on_remote = tt }

some-IsAnchor :
    (remote : List LedgerCoordinate) (n : ℕ) (c : LedgerCoordinate)
    → c.ledger ≤ n
    → IsOnRemote remote c
    → IsAnchor remote n (some c)
some-IsAnchor remote n c h r = record { within = h; on_remote = r }

previous_common-IsAnchor :
    (remote : List LedgerCoordinate) (cursor : CursorRow)
    → IsAnchor remote cursor.ledger (previous_common remote cursor)
unfolding previous_common
previous_common-IsAnchor remote cursor =
    elim (Option-cases (find_remote (cursor.ledger - 1) remote)) [
      | inl missing ↦ rw (missing, previous_common) (none-IsAnchor remote cursor.ledger)
      | inr (p, found) ↦
          let number = find_remote-ledger (cursor.ledger - 1) remote p found in
          elim (Bool-cases (is_same cursor.parent_hash p.hash)) [
            | inl same ↦
                rw (found, previous_common, same)
                  (some-IsAnchor remote cursor.ledger p (omega arith)
                    (p, ap (λ k. find_remote k remote) number ∙ found, refl))
            | inr other ↦ rw (found, previous_common, other) (none-IsAnchor remote cursor.ledger)
          ]
    ]

scan-IsAnchor :
    (remote cs : List LedgerCoordinate) (n : ℕ) (last : Option LedgerCoordinate)
    → All (λ d. d.ledger ≤ n) cs
    → IsCommon remote cs none last
    → IsAnchor remote n last
scan-IsAnchor remote cs n last h (old e) = rw e (none-IsAnchor remote n)
scan-IsAnchor remote cs n last h (new c e m ok) = rw e (
    some-IsAnchor remote n c (All-Listed (λ d. d.ledger ≤ n) c cs h m)
      (is_confirmed-IsOnRemote remote c ok))

pub compare_checkpoints-IsAnchor :
    (cs remote : List LedgerCoordinate) (cursor : CursorRow)
    → All (λ d. d.ledger ≤ cursor.ledger) cs
    → IsAnchor remote cursor.ledger (compare_checkpoints cs remote cursor).0
unfolding compare_checkpoints
compare_checkpoints-IsAnchor [] remote cursor h =
    elim (Bool-cases (is_cursor_mismatch remote cursor)) [
      | inl bad ↦ rw bad (previous_common-IsAnchor remote cursor)
      | inr ok ↦ rw ok (none-IsAnchor remote cursor.ledger)
    ]
compare_checkpoints-IsAnchor (c ∷ cs) remote cursor h =
    scan-IsAnchor remote (c ∷ cs) cursor.ledger _ h (scan_checkpoints-IsCommon remote (c ∷ cs) none)

-- A checkpoint of the window that a reconciliation keeps is confirmed.
pub compare_checkpoints-confirms :
    (cs remote : List LedgerCoordinate) (cursor : CursorRow) (c : LedgerCoordinate)
    → IsAscending cs
    → AreAbove 0 cs
    → Listed c cs
    → let (last, mismatch) = compare_checkpoints cs remote cursor in
      (mismatch ≡ false) ⊎ (c.ledger ≤ level last) → is_confirmed remote c ≡ true
unfolding compare_checkpoints
compare_checkpoints-confirms [] remote cursor c asc above l h = absurd l
compare_checkpoints-confirms (x ∷ xs) remote cursor c asc above l h =
    scan_checkpoints-confirms remote (x ∷ xs) none c asc above l (weaker h)
  where
    weaker :
        let (last, mismatch) = compare_checkpoints (x ∷ xs) remote cursor in
        (mismatch ≡ false) ⊎ (c.ledger ≤ level last)
        → let (last, mismatch) = scan_checkpoints remote none (x ∷ xs) in
          (mismatch ≡ false) ⊎ (c.ledger ≤ level last)
    weaker (inl e) = inl (ground arith)
    weaker (inr e) = inr e
