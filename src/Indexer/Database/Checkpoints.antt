-- ===== src/Indexer/Database/Checkpoints.antt =====
-- The checkpoint table: what sorting and selecting keep, and its unique ledger numbers.
use bc_forge.Common.{
  ℕ, ◌<◌, ◌≡◌, ◌≢◌, ◌⊎◌, inl, inr, Bool, true, false, List, [], ◌∷◌, arith, Bool-cases, All, keep,
  leb, any,
}
use bc_forge.Indexer.Database.{LedgerCoordinate, insert_asc, sort_asc, create_many, is_duplicate}

abbrev pub Listed : LedgerCoordinate → List LedgerCoordinate → Type 0
Listed c [] = ⊥
Listed c (x ∷ xs) = (x ≡ c) ⊎ Listed c xs

-- `ledger` is the primary key.
abbrev pub IsKeyed : List LedgerCoordinate → Type 0
IsKeyed [] = Unit
IsKeyed (c ∷ cs) = All (λ d. c.ledger ≢ d.ledger) cs × IsKeyed cs

abbrev pub IsAscending : List LedgerCoordinate → Type 0
IsAscending [] = Unit
IsAscending (c ∷ cs) = All (λ d. c.ledger < d.ledger) cs × IsAscending cs

pub All-Listed :
    (P : LedgerCoordinate → Type 0) (c : LedgerCoordinate) (cs : List LedgerCoordinate)
    → All P cs
    → Listed c cs
    → P c
All-Listed P c [] h l = absurd l
All-Listed P c (x ∷ xs) h (inl e) = rw (← e) h.0
All-Listed P c (x ∷ xs) h (inr l) = All-Listed P c xs h.1 l

pub Listed-keep :
    (p : LedgerCoordinate → Bool) (c : LedgerCoordinate) (cs : List LedgerCoordinate)
    → Listed c cs
    → p c ≡ true
    → Listed c (keep p cs)
Listed-keep p c [] l h = l
Listed-keep p c (x ∷ xs) (inl e) h = let kept : p x ≡ true = rw e h in rw (kept, keep) (inl e)
Listed-keep p c (x ∷ xs) (inr l) h = elim (Bool-cases (p x)) [
  | inl kept ↦ rw (kept, keep) (inr (Listed-keep p c xs l h))
  | inr dropped ↦ rw (dropped, keep) (Listed-keep p c xs l h)
]

pub keep-Listed :
    (p : LedgerCoordinate → Bool) (c : LedgerCoordinate) (cs : List LedgerCoordinate)
    → Listed c (keep p cs)
    → Listed c cs × (p c ≡ true)
keep-Listed p c [] l = absurd l
keep-Listed p c (x ∷ xs) l = elim (Bool-cases (p x)) [
  | inl kept ↦ listed_head (keep-Listed p c xs) kept (rw (kept, keep) at l)
  | inr dropped ↦ let (m, h) = keep-Listed p c xs (rw (dropped, keep) at l) in (inr m, h)
]
  where
    listed_head :
        (Listed c (keep p xs) → Listed c xs × (p c ≡ true))
        → p x ≡ true
        → Listed c (x ∷ keep p xs)
        → Listed c (x ∷ xs) × (p c ≡ true)
    listed_head ih kept (inl e) = (inl e, rw (← e) kept)
    listed_head ih kept (inr m) = let (l', h) = ih m in (inr l', h)

pub keep-All :
    (P : LedgerCoordinate → Type 0) (p : LedgerCoordinate → Bool) (cs : List LedgerCoordinate)
    → All P cs
    → All P (keep p cs)
keep-All P p [] h = tt
keep-All P p (x ∷ xs) h = elim (Bool-cases (p x)) [
  | inl kept ↦ rw (kept, keep) (h.0, keep-All P p xs h.1)
  | inr dropped ↦ rw (dropped, keep) (keep-All P p xs h.1)
]

pub keep-IsKeyed :
    (p : LedgerCoordinate → Bool) (cs : List LedgerCoordinate) → IsKeyed cs → IsKeyed (keep p cs)
keep-IsKeyed p [] h = tt
keep-IsKeyed p (x ∷ xs) h = elim (Bool-cases (p x)) [
  | inl kept ↦ rw (kept, keep) (keep-All _ p xs h.0, keep-IsKeyed p xs h.1)
  | inr dropped ↦ rw (dropped, keep) (keep-IsKeyed p xs h.1)
]

Listed-insert_asc :
    (c d : LedgerCoordinate) (cs : List LedgerCoordinate)
    → Listed c (d ∷ cs)
    → Listed c (insert_asc d cs)
unfolding insert_asc
Listed-insert_asc c d [] l = l
Listed-insert_asc c d (x ∷ xs) l = elim (Bool-cases (leb d.ledger x.ledger)) [
  | inl first ↦ rw first l
  | inr later ↦ rw later (moved (Listed-insert_asc c d xs) l)
]
  where
    moved :
        (Listed c (d ∷ xs) → Listed c (insert_asc d xs))
        → Listed c (d ∷ x ∷ xs)
        → Listed c (x ∷ insert_asc d xs)
    moved ih (inl e) = inr (ih (inl e))
    moved ih (inr (inl e)) = inl e
    moved ih (inr (inr m)) = inr (ih (inr m))

pub Listed-sort_asc :
    (c : LedgerCoordinate) (cs : List LedgerCoordinate) → Listed c cs → Listed c (sort_asc cs)
unfolding sort_asc
Listed-sort_asc c [] l = l
Listed-sort_asc c (x ∷ xs) (inl e) = Listed-insert_asc c x (sort_asc xs) (inl e)
Listed-sort_asc c (x ∷ xs) (inr l) =
    Listed-insert_asc c x (sort_asc xs) (inr (Listed-sort_asc c xs l))

insert_asc-All :
    (P : LedgerCoordinate → Type 0) (c : LedgerCoordinate) (cs : List LedgerCoordinate)
    → P c
    → All P cs
    → All P (insert_asc c cs)
unfolding insert_asc
insert_asc-All P c [] p h = (p, tt)
insert_asc-All P c (x ∷ xs) p h = elim (Bool-cases (leb c.ledger x.ledger)) [
  | inl first ↦ rw first (p, h)
  | inr later ↦ rw later (h.0, insert_asc-All P c xs p h.1)
]

pub sort_asc-All :
    (P : LedgerCoordinate → Type 0) (cs : List LedgerCoordinate) → All P cs → All P (sort_asc cs)
unfolding sort_asc
sort_asc-All P [] h = tt
sort_asc-All P (x ∷ xs) h = insert_asc-All P x (sort_asc xs) h.0 (sort_asc-All P xs h.1)

All-lt_trans :
    (a b : ℕ) (cs : List LedgerCoordinate)
    → a < b
    → All (λ d. b < d.ledger) cs
    → All (λ d. a < d.ledger) cs
All-lt_trans a b [] h k = tt
All-lt_trans a b (c ∷ cs) h k = (omega (arith, k.0), All-lt_trans a b cs h k.1)

insert_asc-IsAscending :
    (c : LedgerCoordinate) (cs : List LedgerCoordinate)
    → All (λ d. c.ledger ≢ d.ledger) cs
    → IsAscending cs
    → IsAscending (insert_asc c cs)
unfolding insert_asc
insert_asc-IsAscending c [] k h = (tt, tt)
insert_asc-IsAscending c (x ∷ xs) k h = elim (Bool-cases (leb c.ledger x.ledger)) [
  | inl first ↦
      let lower : c.ledger < x.ledger = ground (arith, k.0) in
      rw first ((lower, All-lt_trans c.ledger x.ledger xs lower h.0), h)
  | inr later ↦
      rw later (insert_asc-All _ c xs (ground arith) h.0, insert_asc-IsAscending c xs k.1 h.1)
]

-- Sorted, a keyed table ascends strictly.
pub sort_asc-IsAscending : (cs : List LedgerCoordinate) → IsKeyed cs → IsAscending (sort_asc cs)
unfolding sort_asc
sort_asc-IsAscending [] h = tt
sort_asc-IsAscending (c ∷ cs) h =
    insert_asc-IsAscending c (sort_asc cs) (sort_asc-All _ cs h.0) (sort_asc-IsAscending cs h.1)

fresh_ledger :
    (c : LedgerCoordinate) (rows : List LedgerCoordinate)
    → any (is_duplicate c) rows ≡ false
    → All (λ d. c.ledger ≢ d.ledger) rows
fresh_ledger c [] h = tt
fresh_ledger c (x ∷ xs) h = (λ e. ground arith, fresh_ledger c xs (ground arith))

-- Adding checkpoints with `skipDuplicates` keeps the ledger numbers unique.
pub create_many-IsKeyed :
    (cs rows : List LedgerCoordinate) → IsKeyed rows → IsKeyed (create_many cs rows)
unfolding create_many
create_many-IsKeyed [] rows h = h
create_many-IsKeyed (c ∷ cs) rows h = elim (Bool-cases (any (is_duplicate c) rows)) [
  | inl old ↦ rw old (create_many-IsKeyed cs rows h)
  | inr new ↦ rw new (create_many-IsKeyed cs (c ∷ rows) (fresh_ledger c rows new, h))
]
