-- ===== src/Sdk/Errors/Admin.antt =====
-- The errors of the admin contract (sdk/src/errors.ts): one constructor for each class, the values its
-- constructor passes on, and the map from discriminants to classes.
use bc_forge.Common.{ℕ, List, [], ◌∷◌, String}

-- The error classes of the admin contract.
pub data AdminError : Type 0 where
  role_not_granted : AdminError
  role_not_held : AdminError
  unauthorized_role : AdminError
  invalid_address : AdminError
  invalid_role : AdminError
  already_initialized : AdminError
  invalid_threshold : AdminError
  proposal_not_found : AdminError
  proposal_already_executed : AdminError
  proposal_already_approved : AdminError
  threshold_not_met : AdminError
  quorum_not_met : AdminError
  timelock_active : AdminError
  invalid_wasm_hash : AdminError
  not_proposer : AdminError
  proposal_not_cancellable : AdminError
  upgrade_proposal_not_found : AdminError
  proposal_not_pending : AdminError
  duplicate_vote : AdminError
  unauthorized : AdminError
  batch_length_mismatch : AdminError
  role_already_granted : AdminError
  proposal_expired : AdminError
  proposal_cancelled : AdminError

abbrev pub admin_code : AdminError → String
admin_code AdminError.role_not_granted = "ADMIN_ROLE_NOT_GRANTED"
admin_code AdminError.role_not_held = "ADMIN_ROLE_NOT_HELD"
admin_code AdminError.unauthorized_role = "ADMIN_UNAUTHORIZED_ROLE"
admin_code AdminError.invalid_address = "ADMIN_INVALID_ADDRESS"
admin_code AdminError.invalid_role = "ADMIN_INVALID_ROLE"
admin_code AdminError.already_initialized = "ADMIN_ALREADY_INITIALIZED"
admin_code AdminError.invalid_threshold = "ADMIN_INVALID_THRESHOLD"
admin_code AdminError.proposal_not_found = "ADMIN_PROPOSAL_NOT_FOUND"
admin_code AdminError.proposal_already_executed = "ADMIN_PROPOSAL_ALREADY_EXECUTED"
admin_code AdminError.proposal_already_approved = "ADMIN_PROPOSAL_ALREADY_APPROVED"
admin_code AdminError.threshold_not_met = "ADMIN_THRESHOLD_NOT_MET"
admin_code AdminError.quorum_not_met = "ADMIN_QUORUM_NOT_MET"
admin_code AdminError.timelock_active = "ADMIN_TIMELOCK_ACTIVE"
admin_code AdminError.invalid_wasm_hash = "ADMIN_INVALID_WASM_HASH"
admin_code AdminError.not_proposer = "ADMIN_NOT_PROPOSER"
admin_code AdminError.proposal_not_cancellable = "ADMIN_PROPOSAL_NOT_CANCELLABLE"
admin_code AdminError.upgrade_proposal_not_found = "ADMIN_UPGRADE_PROPOSAL_NOT_FOUND"
admin_code AdminError.proposal_not_pending = "ADMIN_PROPOSAL_NOT_PENDING"
admin_code AdminError.duplicate_vote = "ADMIN_DUPLICATE_VOTE"
admin_code AdminError.unauthorized = "ADMIN_UNAUTHORIZED"
admin_code AdminError.batch_length_mismatch = "ADMIN_BATCH_LENGTH_MISMATCH"
admin_code AdminError.role_already_granted = "ADMIN_ROLE_ALREADY_GRANTED"
admin_code AdminError.proposal_expired = "ADMIN_PROPOSAL_EXPIRED"
admin_code AdminError.proposal_cancelled = "ADMIN_PROPOSAL_CANCELLED"

abbrev pub admin_numeric_code : AdminError → ℕ
admin_numeric_code AdminError.role_not_granted = 1
admin_numeric_code AdminError.role_not_held = 2
admin_numeric_code AdminError.unauthorized_role = 3
admin_numeric_code AdminError.invalid_address = 4
admin_numeric_code AdminError.invalid_role = 5
admin_numeric_code AdminError.already_initialized = 6
admin_numeric_code AdminError.invalid_threshold = 7
admin_numeric_code AdminError.proposal_not_found = 8
admin_numeric_code AdminError.proposal_already_executed = 9
admin_numeric_code AdminError.proposal_already_approved = 10
admin_numeric_code AdminError.threshold_not_met = 11
admin_numeric_code AdminError.quorum_not_met = 12
admin_numeric_code AdminError.timelock_active = 13
admin_numeric_code AdminError.invalid_wasm_hash = 14
admin_numeric_code AdminError.not_proposer = 15
admin_numeric_code AdminError.proposal_not_cancellable = 16
admin_numeric_code AdminError.upgrade_proposal_not_found = 17
admin_numeric_code AdminError.proposal_not_pending = 18
admin_numeric_code AdminError.duplicate_vote = 19
admin_numeric_code AdminError.unauthorized = 20
admin_numeric_code AdminError.batch_length_mismatch = 21
admin_numeric_code AdminError.role_already_granted = 22
admin_numeric_code AdminError.proposal_expired = 23
admin_numeric_code AdminError.proposal_cancelled = 24

abbrev pub admin_message : AdminError → String
admin_message AdminError.role_not_granted = "Role not granted"
admin_message AdminError.role_not_held = "An address does not hold the required role"
admin_message AdminError.unauthorized_role =
    "require_role_guard failed: caller is not authorized for this role"
admin_message AdminError.invalid_address =
    "An operation was attempted with the canonical zero address"
admin_message AdminError.invalid_role =
    "A role discriminant not recognized by this contract was supplied"
admin_message AdminError.already_initialized = "Contract has already been initialized"
admin_message AdminError.invalid_threshold =
    "The approval threshold is zero or exceeds admin-pool size"
admin_message AdminError.proposal_not_found = "The requested governance proposal does not exist"
admin_message AdminError.proposal_already_executed =
    "The requested governance proposal has already been executed"
admin_message AdminError.proposal_already_approved =
    "Admin has already approved the requested governance proposal"
admin_message AdminError.threshold_not_met =
    "Governance proposal has not reached its approval threshold"
admin_message AdminError.quorum_not_met =
    "Proposal has not gathered enough approvals to meet quorum"
admin_message AdminError.timelock_active = "Mandatory timelock delay has not elapsed yet"
admin_message AdminError.invalid_wasm_hash =
    "Supplied WASM hash is not registered as installed on ledger"
admin_message AdminError.not_proposer = "cancel_proposal called by address other than submitter"
admin_message AdminError.proposal_not_cancellable =
    "cancel_proposal called on terminal proposal status"
admin_message AdminError.upgrade_proposal_not_found = "WASM upgrade proposal with ID does not exist"
admin_message AdminError.proposal_not_pending = "Proposal is not in pending status accepting votes"
admin_message AdminError.duplicate_vote = "Caller already cast a vote on upgrade proposal"
admin_message AdminError.unauthorized = "General authorization failure"
admin_message AdminError.batch_length_mismatch =
    "execute_upgrade_batch called with unequal vector lengths"
admin_message AdminError.role_already_granted =
    "Target address already holds the role being granted"
admin_message AdminError.proposal_expired = "Governance proposal expiry ledger has passed"
admin_message AdminError.proposal_cancelled =
    "Proposal was withdrawn by creator via cancel_legacy_proposal"

abbrev pub admin_docs_anchor : AdminError → String
admin_docs_anchor AdminError.role_not_granted = "admin-role-not-granted"
admin_docs_anchor AdminError.role_not_held = "admin-role-not-held"
admin_docs_anchor AdminError.unauthorized_role = "admin-unauthorized-role"
admin_docs_anchor AdminError.invalid_address = "admin-invalid-address"
admin_docs_anchor AdminError.invalid_role = "admin-invalid-role"
admin_docs_anchor AdminError.already_initialized = "admin-already-initialized"
admin_docs_anchor AdminError.invalid_threshold = "admin-invalid-threshold"
admin_docs_anchor AdminError.proposal_not_found = "admin-proposal-not-found"
admin_docs_anchor AdminError.proposal_already_executed = "admin-proposal-already-executed"
admin_docs_anchor AdminError.proposal_already_approved = "admin-proposal-already-approved"
admin_docs_anchor AdminError.threshold_not_met = "admin-threshold-not-met"
admin_docs_anchor AdminError.quorum_not_met = "admin-quorum-not-met"
admin_docs_anchor AdminError.timelock_active = "admin-timelock-active"
admin_docs_anchor AdminError.invalid_wasm_hash = "admin-invalid-wasm-hash"
admin_docs_anchor AdminError.not_proposer = "admin-not-proposer"
admin_docs_anchor AdminError.proposal_not_cancellable = "admin-proposal-not-cancellable"
admin_docs_anchor AdminError.upgrade_proposal_not_found = "admin-upgrade-proposal-not-found"
admin_docs_anchor AdminError.proposal_not_pending = "admin-proposal-not-pending"
admin_docs_anchor AdminError.duplicate_vote = "admin-duplicate-vote"
admin_docs_anchor AdminError.unauthorized = "admin-unauthorized"
admin_docs_anchor AdminError.batch_length_mismatch = "admin-batch-length-mismatch"
admin_docs_anchor AdminError.role_already_granted = "admin-role-already-granted"
admin_docs_anchor AdminError.proposal_expired = "admin-proposal-expired"
admin_docs_anchor AdminError.proposal_cancelled = "admin-proposal-cancelled"

-- `ADMIN_ERROR_MAP`
unfoldable pub admin_error_map : List (ℕ × AdminError)
admin_error_map =
    (1, AdminError.role_not_granted)
    ∷ (2, AdminError.role_not_held)
    ∷ (3, AdminError.unauthorized_role)
    ∷ (4, AdminError.invalid_address)
    ∷ (5, AdminError.invalid_role)
    ∷ (6, AdminError.already_initialized)
    ∷ (7, AdminError.invalid_threshold)
    ∷ (8, AdminError.proposal_not_found)
    ∷ (9, AdminError.proposal_already_executed)
    ∷ (10, AdminError.proposal_already_approved)
    ∷ (11, AdminError.threshold_not_met)
    ∷ (12, AdminError.quorum_not_met)
    ∷ (13, AdminError.timelock_active)
    ∷ (14, AdminError.invalid_wasm_hash)
    ∷ (15, AdminError.not_proposer)
    ∷ (16, AdminError.proposal_not_cancellable)
    ∷ (17, AdminError.upgrade_proposal_not_found)
    ∷ (18, AdminError.proposal_not_pending)
    ∷ (19, AdminError.duplicate_vote)
    ∷ (20, AdminError.unauthorized)
    ∷ (21, AdminError.batch_length_mismatch)
    ∷ (22, AdminError.role_already_granted)
    ∷ (23, AdminError.proposal_expired)
    ∷ (24, AdminError.proposal_cancelled)
    ∷ []
