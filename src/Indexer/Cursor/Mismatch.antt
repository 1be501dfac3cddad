-- ===== src/Indexer/Cursor/Mismatch.antt =====
-- When the comparison of persisted checkpoints with the remote ledgers (indexer/src/cursor.ts) finds a
-- mismatch, and where.
use bc_forge.Common.{
  ◌≡◌, refl, ap, ◌∙◌, ◌⊎◌, inl, inr, Bool, true, false, Option, none, some, List, [], ◌∷◌, ◌++◌,
  arith, Bool-cases, All, last?, not, ◌&&◌, ◌||◌,
}
use bc_forge.Indexer.Database.{LedgerCoordinate, CursorRow}
use bc_forge.Indexer.Cursor.{
  is_confirmed, scan_checkpoints, is_cursor_mismatch, previous_common, ends_at, compare_checkpoints,
}

abbrev pub AreConfirmed : List LedgerCoordinate → List LedgerCoordinate → Type 0
AreConfirmed remote cs = All (λ d. is_confirmed remote d ≡ true) cs

-- The last checkpoint, or the remote ledger before the cursor where there are no checkpoints.
abbrev pub last_or_previous :
    List LedgerCoordinate → Option LedgerCoordinate → Option LedgerCoordinate
last_or_previous [] previous = previous
last_or_previous (c ∷ cs) previous = last? (c ∷ cs)

-- The evidence of a mismatch, and the last common checkpoint before it.
pub data Mismatch (remote persisted : List LedgerCoordinate) (cursor : CursorRow)
    (common : Option LedgerCoordinate) : Type 0 where
  unconfirmed :
      (before : List LedgerCoordinate) (c : LedgerCoordinate) (others : List LedgerCoordinate)
      → persisted ≡ before ++ c ∷ others
      → AreConfirmed remote before
      → is_confirmed remote c ≡ false
      → common ≡ last? before
      → Mismatch remote persisted cursor common
  cursor_differs :
      AreConfirmed remote persisted
      → ends_at cursor.ledger persisted ≡ false
      → is_cursor_mismatch remote cursor ≡ true
      → common ≡ last_or_previous persisted (previous_common remote cursor)
      → Mismatch remote persisted cursor common

-- The cursor is the last of the checkpoints, or does not differ from its remote ledger.
abbrev pub IsAgreed : List LedgerCoordinate → List LedgerCoordinate → CursorRow → Type 0
IsAgreed remote persisted cursor =
    (ends_at cursor.ledger persisted ≡ true) ⊎ (is_cursor_mismatch remote cursor ≡ false)

abbrev last_or : Option LedgerCoordinate → List LedgerCoordinate → Option LedgerCoordinate
last_or common [] = common
last_or common (c ∷ cs) = last_or (some c) cs

last_or-last? :
    (c : LedgerCoordinate) (cs : List LedgerCoordinate) → last_or (some c) cs ≡ last? (c ∷ cs)
last_or-last? c [] = refl
last_or-last? c (d ∷ cs) = last_or-last? d cs

last_of : (cs : List LedgerCoordinate) → last_or none cs ≡ last? cs
last_of [] = refl
last_of (c ∷ cs) = last_or-last? c cs

-- How a scan ends.
data Scanned (remote cs : List LedgerCoordinate) (common last : Option LedgerCoordinate)
    (mismatch : Bool) : Type 0 where
  whole :
      AreConfirmed remote cs
      → last ≡ last_or common cs
      → mismatch ≡ false
      → Scanned remote cs common last mismatch
  stops :
      (before : List LedgerCoordinate) (c : LedgerCoordinate) (others : List LedgerCoordinate)
      → cs ≡ before ++ c ∷ others
      → AreConfirmed remote before
      → is_confirmed remote c ≡ false
      → last ≡ last_or common before
      → mismatch ≡ true
      → Scanned remote cs common last mismatch

scan_checkpoints-Scanned :
    (remote cs : List LedgerCoordinate) (common : Option LedgerCoordinate)
    → let (last, mismatch) = scan_checkpoints remote common cs in
      Scanned remote cs common last mismatch
unfolding scan_checkpoints
scan_checkpoints-Scanned remote [] common = whole tt refl refl
scan_checkpoints-Scanned remote (x ∷ xs) common = elim (Bool-cases (is_confirmed remote x)) [
  | inl ok ↦ rw ok (further ok (scan_checkpoints-Scanned remote xs (some x)))
  | inr bad ↦ rw bad (stops [] x xs refl tt bad refl refl)
]
  where
    further :
        {last : Option LedgerCoordinate} {mismatch : Bool}
        → is_confirmed remote x ≡ true
        → Scanned remote xs (some x) last mismatch
        → Scanned remote (x ∷ xs) common last mismatch
    further ok (whole cs e m) = whole (ok, cs) e m
    further ok (stops before c others e cs bad l m) =
        stops (x ∷ before) c others (ap (λ t. x ∷ t) e) (ok, cs) bad l m

Scanned-Mismatch :
    (remote cs : List LedgerCoordinate) (c : LedgerCoordinate) (cursor : CursorRow)
    (last : Option LedgerCoordinate) (mismatch : Bool)
    → Scanned remote (c ∷ cs) none last mismatch
    → (mismatch || (not (ends_at cursor.ledger (c ∷ cs)) && is_cursor_mismatch remote cursor))
      ≡ true
    → Mismatch remote (c ∷ cs) cursor last
Scanned-Mismatch remote cs c cursor last mismatch (whole ok e m) h =
    cursor_differs ok (ground arith) (ground arith) (e ∙ last_or-last? c cs)
Scanned-Mismatch remote cs c cursor last mismatch (stops before d others e ok bad l m) h =
    unconfirmed before d others e ok bad (l ∙ last_of before)

Scanned-IsAgreed :
    (remote cs : List LedgerCoordinate) (cursor : CursorRow) (last : Option LedgerCoordinate)
    (mismatch : Bool)
    → Scanned remote cs none last mismatch
    → (mismatch || (not (ends_at cursor.ledger cs) && is_cursor_mismatch remote cursor)) ≡ false
    → AreConfirmed remote cs × IsAgreed remote cs cursor
Scanned-IsAgreed remote cs cursor last mismatch (whole ok e m) h =
    elim (Bool-cases (ends_at cursor.ledger cs)) [
      | inl ends ↦ (ok, inl ends)
      | inr apart ↦ (ok, inr (ground arith))
    ]
Scanned-IsAgreed remote cs cursor last mismatch (stops before d others e ok bad l m) h =
    absurd (ground arith)

-- Without a mismatch every checkpoint is confirmed and the cursor agrees; with one there is evidence.
pub compare_checkpoints-found :
    (cs remote : List LedgerCoordinate) (cursor : CursorRow)
    → let (common, mismatch) = compare_checkpoints cs remote cursor in
      (mismatch ≡ false → AreConfirmed remote cs × IsAgreed remote cs cursor)
      × (mismatch ≡ true → Mismatch remote cs cursor common)
unfolding compare_checkpoints
compare_checkpoints-found [] remote cursor = elim (Bool-cases (is_cursor_mismatch remote cursor)) [
  | inl bad ↦ rw bad (λ e. absurd (ground arith), λ e. cursor_differs tt refl bad refl)
  | inr ok ↦ rw ok (λ e. (tt, inr refl), λ e. absurd (ground arith))
]
compare_checkpoints-found (c ∷ cs) remote cursor =
    let scanned = scan_checkpoints-Scanned remote (c ∷ cs) none in
    let (last, mismatch) = scan_checkpoints remote none (c ∷ cs) in
    (
      λ e. Scanned-IsAgreed remote (c ∷ cs) cursor last mismatch scanned e,
      λ e. Scanned-Mismatch remote cs c cursor last mismatch scanned e,
    )
