-- ===== src/Sdk/Tests/Listening.antt =====
-- A subscription of `onMint` to a contract that mints twice in one transaction, over two polls.
use bc_forge.Common.{
  ℕ, ◌≡◌, refl, Bool, true, Option, none, some, List, [], ◌∷◌, String, map, if◌then◌else◌, ◌===◌,
}
use bc_forge.Common.Int.{ℤ, pos}
use bc_forge.Sdk.Events.Data.{
  Native, array, single, MintEventData, DepositEventData, decode_mint_event_data,
  decode_versioned_tuple,
}
use bc_forge.Sdk.Events.Decoding.{Values, EventResponse, BcForgeEvent, decode_event}
use bc_forge.Sdk.Events.Listeners.{
  Polled, failed_poll, got_events, Listener, polls, poll_events, on_events, listen, on_matched,
  match_mint, match_transfer, match_deposit, Moved, subscribe, subscribed,
}
use bc_forge.Sdk.Events.Transactions.{are_of_distinct_transactions, has_hash_of}
use bc_forge.Sdk.Events.Reported.{polls-are_of_distinct_transactions}
use bc_forge.Sdk.Events.Cursor.{IsAhead, polls-IsAhead, polls-subscribe-IsAhead}

abbrev plain : Values (Native String) String
plain = record { sc_val_to_native = λ v. some v; text_of = λ s. some s }

abbrev one_of : String → Option ℤ
one_of s = if s === "1" then some (pos 1) else none

abbrev mint_event : String → ℕ → String → EventResponse (Native String)
mint_event tx n to = record {
  id = to;
  ledger = n;
  topic = single "mint" ∷ [];
  value = array ("GADMIN" ∷ to ∷ "5" ∷ "5" ∷ "9" ∷ "1" ∷ []);
  contract_id = some "C";
  tx_hash = some tx;
}

abbrev answers : List (Polled (Native String))
answers =
    got_events (mint_event "t1" 7 "GA" ∷ mint_event "t1" 7 "GB" ∷ mint_event "t2" 8 "GA" ∷ [])
    ∷ failed_poll
    ∷ got_events (mint_event "t2" 8 "GA" ∷ [])
    ∷ []

abbrev quiet : BcForgeEvent String × MintEventData String → Bool
quiet c = true

abbrev after_mints : Listener (BcForgeEvent String × MintEventData String)
after_mints = polls (listen quiet (match_mint plain one_of)) answers (subscribed 5)

-- The second mint of the transaction "t1" is never reported.
mints_reported : map (λ c. c.payload.1.to) after_mints.calls ≡ "GA" ∷ "GA" ∷ []
unfolding polls poll_events on_events listen on_matched match_mint decode_event
    decode_mint_event_data decode_versioned_tuple
mints_reported = refl

mints_cursor : after_mints.last_ledger ≡ 9
unfolding polls poll_events on_events listen on_matched match_mint decode_event
    decode_mint_event_data decode_versioned_tuple
mints_cursor = refl

abbrev no_transfers : BcForgeEvent String × Moved String → Bool
no_transfers d = true

abbrev no_deposits : BcForgeEvent String × DepositEventData String → Bool
no_deposits d = true

polls-are_of_distinct_transactions_example :
    ((are_of_distinct_transactions after_mints.calls ≡ true)
      × (are_of_distinct_transactions
            (polls (listen no_transfers (match_transfer plain one_of)) answers (subscribed 5)).calls
          ≡ true)
      × (are_of_distinct_transactions
            (polls
              (listen no_deposits (match_deposit plain one_of "C"))
              answers
              (subscribed 5)).calls
          ≡ true))
    × ((has_hash_of (some "t1") (match_mint plain one_of (mint_event "t1" 5 "GA")) ≡ true)
        × (has_hash_of (some "t1") (match_transfer plain one_of (mint_event "t1" 5 "GA")) ≡ true)
        × (has_hash_of (some "t1") (match_deposit plain one_of "C" (mint_event "t1" 5 "GA"))
            ≡ true))
polls-are_of_distinct_transactions_example =
    polls-are_of_distinct_transactions plain one_of "C" quiet no_transfers no_deposits answers 5
      (mint_event "t1" 5 "GA")

polls-IsAhead_example : IsAhead quiet 5 after_mints
polls-IsAhead_example = polls-IsAhead quiet (match_mint plain one_of) answers 5

abbrev silent : BcForgeEvent String → Bool
silent d = true

polls-subscribe-IsAhead_example :
    IsAhead silent 5 (polls (subscribe plain silent) answers (subscribed 5))
polls-subscribe-IsAhead_example = polls-subscribe-IsAhead plain silent answers 5
