-- ===== src/Indexer/Loop/Progress.antt =====
-- What a round of the ingestion loop does to the cursor.
use bc_forge.Common.{
  ℕ, zero, suc, ◌+◌, ◌-◌, ◌≤◌, ◌≡◌, refl, true, Option, none, some, List, [], ◌∷◌, arith,
  Option-cases, Bool-cases, inl, inr, length, last?, keep, keep_passes, All, sym, ◌∙◌, ltb,
}
use bc_forge.Indexer.Database.{LedgerCoordinate, CursorRow}
use bc_forge.Indexer.Cursor.Chain.{
  get_elem?, IsLinked, with_previous, has_continuous_parent_chain_iff, IsLinked-ledger,
}
use bc_forge.Indexer.Loop.{
  LoopState, Server, indexed, previous_coordinate, is_in_range, is_whole, commit_range, index_range,
  handle_range, index_up_to, run_round, end_ledger, ledger_start,
}

last?-get_elem? :
    (l : LedgerCoordinate) (ls : List LedgerCoordinate)
    → last? (l ∷ ls) ≡ get_elem? (l ∷ ls) (length ls)
last?-get_elem? l [] = refl
last?-get_elem? l (x ∷ xs) = last?-get_elem? x xs

IsLinked-tail :
    (p : Option LedgerCoordinate) (ls : List LedgerCoordinate)
    → IsLinked (with_previous p ls)
    → IsLinked ls
IsLinked-tail none ls h = h
IsLinked-tail (some p) ls h = λ i. h (suc i)

All-get_elem? :
    (P : LedgerCoordinate → Type 0) (ls : List LedgerCoordinate) (i : ℕ) (l : LedgerCoordinate)
    → All P ls
    → get_elem? ls i ≡ some l
    → P l
All-get_elem? P [] i l h e = absurd (ground arith)
All-get_elem? P (x ∷ xs) zero l h e = let same : x ≡ l = cc in rw (← same) h.0
All-get_elem? P (x ∷ xs) (suc i) l h e = All-get_elem? P xs i l h.1 e

-- A linked range that fills its bounds ends at the upper one.
linked_range_end :
    (start end : ℕ) (ls : List LedgerCoordinate) (latest : LedgerCoordinate)
    → IsLinked ls
    → All (λ c. (start ≤ c.ledger) × (c.ledger ≤ end)) ls
    → length ls ≡ end - start + 1
    → last? ls ≡ some latest
    → latest.ledger ≡ end
linked_range_end start end [] latest linked within long h = absurd (ground arith)
linked_range_end start end (l ∷ ls) latest linked within long h =
    let place = sym (last?-get_elem? l ls) ∙ h in
    let number = IsLinked-ledger (l ∷ ls) (length ls) l latest linked refl place in
    let bounds =
      All-get_elem? (λ c. (start ≤ c.ledger) × (c.ledger ≤ end)) (l ∷ ls) (length ls) latest within
        place in
    omega (arith, number, bounds, long, within)

abbrev pub cursor_row : LedgerCoordinate → CursorRow
cursor_row c = record { ledger = c.ledger; hash = some c.hash; parent_hash = some c.parent_hash }

-- What an indexed round leaves: the cursor row of the last ledger of the range, and the next start.
pub record IsIndexed (st st' : LoopState) (a b : ℕ) : Type 0 where
  pub begins : a ≡ st.start_ledger
  pub nonempty : a ≤ b
  pub bounded : b ≤ a + 1000
  pub next : st'.start_ledger ≡ b + 1
  pub latest : LedgerCoordinate
  pub cursor : st'.db.last_indexed_ledger ≡ some (cursor_row latest)
  pub reached : latest.ledger ≡ b

is_whole-range :
    (last_ledger : Option CursorRow) (start end : ℕ) (ledgers : List LedgerCoordinate)
    (latest : LedgerCoordinate)
    → is_whole last_ledger start end ledgers ≡ true
    → last? (keep (is_in_range start end) ledgers) ≡ some latest
    → latest.ledger ≡ end
unfolding is_whole
is_whole-range last_ledger start end ledgers latest h e =
    let coordinates = keep (is_in_range start end) ledgers in
    let previous = previous_coordinate last_ledger start ledgers in
    linked_range_end start end coordinates latest
      (IsLinked-tail previous coordinates
        ((has_continuous_parent_chain_iff coordinates previous).0 (ground arith)))
      (keep_passes _ (is_in_range start end) ledgers (λ c k. ground arith)) (ground arith) e

handle_range-IsIndexed :
    (sv : Server) (end : ℕ) (ledgers : List LedgerCoordinate) (st st' : LoopState) (a b : ℕ)
    → st.start_ledger ≤ end
    → end ≤ st.start_ledger + 1000
    → handle_range sv end ledgers st ≡ (st', indexed a b)
    → IsIndexed st st' a b × (b ≡ end)
unfolding handle_range index_range commit_range
handle_range-IsIndexed sv end ledgers st st' a b low high h =
    elim (Bool-cases (is_whole st.last_ledger st.start_ledger end ledgers)) [
      | inr broken ↦ absurd (ground arith)
      | inl whole ↦ elim (Option-cases (sv.get_events st.start_ledger end)) [
        | inl lost ↦ absurd (ground arith)
        | inr (events, answered) ↦
            let range = keep (is_in_range st.start_ledger end) ledgers in
            elim (Option-cases (last? range)) [
              | inl empty ↦ absurd (ground arith)
              | inr (latest, found) ↦
                  let last =
                    is_whole-range st.last_ledger st.start_ledger end ledgers latest whole found in
                  (
                    record {
                      begins = ground arith;
                      nonempty = ground arith;
                      bounded = ground arith;
                      next = ground arith;
                      latest = latest;
                      cursor = ground arith;
                      reached = ground (arith, last);
                    },
                    ground arith,
                  )
            ]
      ]
    ]

-- A round that indexes a range takes at most 1001 ledgers from the start of the range up to at most
-- the latest ledger of the network, stores the cursor row of exactly its last ledger, and goes on
-- with the ledger after it.
pub run_round-IsIndexed :
    (sv : Server) (st st' : LoopState) (current a b : ℕ)
    → sv.get_latest_ledger ≡ some current
    → run_round sv st ≡ (st', indexed a b)
    → IsIndexed st st' a b × (b ≤ current)
unfolding run_round index_up_to
run_round-IsIndexed sv st st' current a b latest h =
    let end = end_ledger st.start_ledger current in
    let from = ledger_start st.start_ledger in
    elim (Option-cases (sv.get_ledgers from (end - from + 1))) [
      | inl lost ↦ absurd (ground arith)
      | inr (ledgers, answered) ↦ elim (Bool-cases (ltb current st.start_ledger)) [
        | inl idle ↦ absurd (ground arith)
        | inr due ↦
            let (indexed_range, last) =
              handle_range-IsIndexed sv end ledgers st st' a b (ground arith) (ground arith)
                (ground arith) in
            (indexed_range, ground arith)
      ]
    ]
