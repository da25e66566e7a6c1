-- ===== src/Updater/Marker.antt =====
-- rust/src/updater/transaction.rs: the transaction marker, which the updater writes to disk before
-- each of its steps, and `validate_marker`, which every read and every write of it passes. A file's
-- SHA-256 is the text of its hexadecimal digits.
use flist_walker.Prelude.{
  ℕ, suc, Bool, true, false, ◌&&◌, ◌||◌, not, Option, none, some, List, [], ◌∷◌, get_elem?, take,
  drop, is_empty, any, all, ltb, leb, ◌==◌, if◌then◌else◌,
}
use flist_walker.Text.{Text, codes, len, text_eq, has_char}

pub data TargetRole : Type 0 where
  readme : TargetRole
  license : TargetRole
  notices : TargetRole
  binary : TargetRole

-- `TargetRole::ORDER`
abbrev pub order : List TargetRole
order = readme ∷ license ∷ notices ∷ binary ∷ []

abbrev pub role_code : TargetRole → ℕ
role_code readme = 0
role_code license = 1
role_code notices = 2
role_code binary = 3

abbrev pub role_eq : TargetRole → TargetRole → Bool
role_eq r q = role_code r == role_code q

pub data Phase : Type 0 where
  prepared_parent_owned : Phase
  helper_registered : Phase
  applying_sidecars : Phase
  binary_intent : Phase
  binary_committed : Phase
  rolling_back : Phase
  rolled_back : Phase

abbrev phase_code : Phase → ℕ
phase_code prepared_parent_owned = 0
phase_code helper_registered = 1
phase_code applying_sidecars = 2
phase_code binary_intent = 3
phase_code binary_committed = 4
phase_code rolling_back = 5
phase_code rolled_back = 6

abbrev pub phase_eq : Phase → Phase → Bool
phase_eq p q = phase_code p == phase_code q

pub data TargetState : Type 0 where
  prepared : TargetState
  intent : TargetState
  applied : TargetState
  rolled_back : TargetState

abbrev state_code : TargetState → ℕ
state_code prepared = 0
state_code intent = 1
state_code applied = 2
state_code TargetState.rolled_back = 3

abbrev pub state_eq : TargetState → TargetState → Bool
state_eq s t = state_code s == state_code t

pub record TargetRecord : Type 0 where
  pub role : TargetRole
  pub originally_present : Bool
  pub old_hash : Option Text
  pub new_hash : Text
  pub state : TargetState

pub record TransactionMarker : Type 0 where
  pub version : ℕ
  pub transaction_id : Text
  pub binary_name : Text
  pub parent_pid : ℕ
  pub helper_pid : Option ℕ
  pub helper_start_token : Option Text
  pub helper_hash : Text
  pub phase : Phase
  pub targets : List TargetRecord

abbrev marker_version : ℕ
marker_version = 1

-- `u8::is_ascii_digit`, or a letter from a to f
unfoldable pub is_lower_hex : ℕ → Bool
is_lower_hex c = (leb b'0' c && leb c b'9') || (leb b'a' c && leb c b'f')

unfoldable pub is_sha256 : Text → Bool
unfolding is_lower_hex
is_sha256 value = len value == 64 && all is_lower_hex value

unfoldable pub validate_transaction_id : Text → Bool
unfolding is_lower_hex
validate_transaction_id value = len value == 32 && all is_lower_hex value

abbrev is_ascii_whitespace : ℕ → Bool
is_ascii_whitespace c = c == 0x20 || c == 0x9 || c == 0xa || c == 0xc || c == 0xd

-- The length, at most 128, is in bytes; an ASCII text has one for each character.
unfoldable pub validate_start_token : Text → Bool
validate_start_token value =
    leb 16 (len value)
    && leb (len value) 128
    && all (λ c. ltb c 128) value
    && not (any is_ascii_whitespace value)

abbrev is_ascii_control : ℕ → Bool
is_ascii_control c = ltb c 0x20 || c == 0x7f

unfoldable pub is_safe_basename : Text → Bool
is_safe_basename value =
    not (is_empty value)
    && not (text_eq value (codes "."))
    && not (text_eq value (codes ".."))
    && not (has_char b'/' value)
    && not (has_char b'\\' value)
    && not (any is_ascii_control value)

unfoldable pub all_states : List TargetRecord → TargetState → Bool
all_states targets expected = all (λ target. state_eq (target.state) expected) targets

-- The stage of `is_forward_prefix` behind one record, from the stage before it.
abbrev forward_stage : ℕ → TargetState → Option ℕ
forward_stage stage applied = if stage == 0 then some 0 else none
forward_stage stage intent = if stage == 0 then some 1 else none
forward_stage stage prepared = if leb stage 2 then some 2 else none
forward_stage stage TargetState.rolled_back = none

unfoldable pub is_forward_from : ℕ → List TargetRecord → Bool
is_forward_from stage [] = true
is_forward_from stage (target ∷ targets) = elim (forward_stage stage target.state) [
  | none ↦ false
  | some next ↦ is_forward_from next targets
]

unfoldable pub is_forward_prefix : List TargetRecord → Bool
unfolding is_forward_from
is_forward_prefix = is_forward_from 0

-- Where the first rolled-back record stands, or the number of records.
abbrev first_rolled_back : List TargetRecord → ℕ
first_rolled_back [] = 0
first_rolled_back (target ∷ targets) =
    if state_eq (target.state) TargetState.rolled_back then 0 else suc (first_rolled_back targets)

unfoldable pub is_rollback_suffix : List TargetRecord → Bool
unfolding is_forward_prefix all_states
is_rollback_suffix targets =
    let split = first_rolled_back targets in
    is_forward_prefix (take split targets)
    && all_states (drop split targets) TargetState.rolled_back

-- `validate_registered_helper`, on the identity of the helper
unfoldable pub registered_helper : Option ℕ → Option Text → Bool
unfolding validate_start_token
registered_helper none token = false
registered_helper (some pid) none = false
registered_helper (some pid) (some token) = not (pid == 0) && validate_start_token token

unfoldable pub validate_registered_helper : TransactionMarker → Bool
unfolding registered_helper
validate_registered_helper marker = registered_helper marker.helper_pid marker.helper_start_token

-- `validate_optional_helper`, on the identity of the helper
unfoldable pub optional_helper : Option ℕ → Option Text → Bool
unfolding registered_helper
optional_helper none none = true
optional_helper none (some token) = false
optional_helper (some pid) none = false
optional_helper (some pid) (some token) = registered_helper (some pid) (some token)

unfoldable pub validate_optional_helper : TransactionMarker → Bool
unfolding optional_helper
validate_optional_helper marker = optional_helper marker.helper_pid marker.helper_start_token

abbrev pub no_helper : Option ℕ → Option Text → Bool
no_helper none none = true
no_helper none (some token) = false
no_helper (some pid) token = false

abbrev pub state_at : ℕ → (TargetState → Bool) → List TargetRecord → Bool
state_at i test targets = elim (get_elem? targets i) [ none ↦ false | some r ↦ test r.state ]

-- The match on the phase at the end of `validate_marker`.
unfoldable pub validate_phase : Phase → TransactionMarker → Bool
unfolding all_states is_forward_prefix is_rollback_suffix validate_registered_helper
    validate_optional_helper
validate_phase prepared_parent_owned marker =
    no_helper marker.helper_pid marker.helper_start_token && all_states marker.targets prepared
validate_phase helper_registered marker =
    validate_registered_helper marker && all_states marker.targets prepared
validate_phase applying_sidecars marker =
    validate_registered_helper marker
    && state_at 3 (λ s. state_eq s prepared) marker.targets
    && is_forward_prefix (take 3 marker.targets)
validate_phase binary_intent marker =
    validate_registered_helper marker
    && all_states (take 3 marker.targets) applied
    && state_at 3 (λ s. not (state_eq s TargetState.rolled_back)) marker.targets
validate_phase binary_committed marker =
    validate_registered_helper marker && all_states marker.targets applied
validate_phase rolling_back marker =
    validate_optional_helper marker && is_rollback_suffix marker.targets
validate_phase Phase.rolled_back marker =
    validate_optional_helper marker && all_states marker.targets TargetState.rolled_back

-- The targets of a marker are those of `TargetRole::ORDER`, in this order.
abbrev has_role_order : List TargetRecord → List TargetRole → Bool
has_role_order [] [] = true
has_role_order [] (role ∷ roles) = false
has_role_order (target ∷ targets) [] = false
has_role_order (target ∷ targets) (role ∷ roles) =
    role_eq target.role role && has_role_order targets roles

abbrev pub is_present : Option Text → Bool
is_present none = false
is_present (some hash) = true

abbrev pub bool_eq : Bool → Bool → Bool
bool_eq true b = b
bool_eq false b = not b

-- The hashes of one record in `validate_marker`.
unfoldable pub validate_hashes : TargetRecord → Bool
unfolding is_sha256
validate_hashes target =
    is_sha256 target.new_hash
    && bool_eq target.originally_present (is_present target.old_hash)
    && elim target.old_hash [ none ↦ true | some hash ↦ is_sha256 hash ]

-- The part of `validate_marker` before the match on the phase.
unfoldable pub validate_identity : TransactionMarker → Bool
unfolding validate_transaction_id is_safe_basename is_sha256 validate_hashes
validate_identity marker =
    marker.version == marker_version
    && validate_transaction_id marker.transaction_id
    && is_safe_basename marker.binary_name
    && has_role_order marker.targets order
    && not (marker.parent_pid == 0)
    && is_sha256 marker.helper_hash
    && all validate_hashes marker.targets

unfoldable pub validate_marker : TransactionMarker → Bool
unfolding validate_identity validate_phase
validate_marker marker = validate_identity marker && validate_phase marker.phase marker
