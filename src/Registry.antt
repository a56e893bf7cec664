-- ===== src/Registry.antt =====
-- The list of transports of src/adbd/transport.c: which transport a serial number names, how one is
-- acquired, and the end of a transport's life. A C string is the list of its characters; NULL is
-- `none`.
pub mod Messages
pub mod Registration
pub mod Match
pub mod Acquire
pub mod Turns
pub mod Outside
pub mod Life
pub mod Threads
use adbd.Base.{
  Option, none, some, ℕ, Bool, true, false, not, ◌&&◌, ◌||◌, List, [], ◌∷◌, Bytes, codes, leb, ◌==◌,
  if◌then◌else◌,
}
use adbd.Transport.{ConnectionState, bytes_eq}

pub data TransportType : Type 0 where
  transport_usb transport_local transport_any transport_host : TransportType

-- The fields of an `atransport` that this file's functions read and write.
pub record Entry : Type 0 where
  pub serial : Option Bytes
  pub devpath : Option Bytes
  pub product : Option Bytes
  pub model : Option Bytes
  pub device : Option Bytes
  pub ttype : TransportType
  pub connection_state : ConnectionState

unfoldable pub qual_char_is_invalid : ℕ → Bool
qual_char_is_invalid ch =
    if leb 65 ch && leb ch 90
    then false
    else if leb 97 ch && leb ch 122
    then false
    else if leb 48 ch && leb ch 57
    then false
    else true

-- `if(sanitize_qual&&qual_char_is_invalid(ch))ch='_'`
unfoldable pub sanitized : Bool → ℕ → ℕ
unfolding qual_char_is_invalid
sanitized sanitize_qual ch = if sanitize_qual && qual_char_is_invalid ch then 95 else ch

-- `while(*prefix)if(*prefix++!=*to_test++)return 0`: what is left to test, if all agreed.
unfoldable pub after_prefix : Bytes → Bytes → Option Bytes
after_prefix [] to_test = some to_test
after_prefix (c ∷ prefix) [] = none
after_prefix (c ∷ prefix) (d ∷ to_test) = elim (c == d) [
  | true ↦ after_prefix prefix to_test
  | false ↦ none
]

-- The loop over `qual` and the last test.
unfoldable pub matches_qual : Bool → Bytes → Bytes → Bool
unfolding sanitized
matches_qual sanitize_qual [] [] = true
matches_qual sanitize_qual [] (d ∷ to_test) = false
matches_qual sanitize_qual (c ∷ qual) [] = false
matches_qual sanitize_qual (c ∷ qual) (d ∷ to_test) = elim (sanitized sanitize_qual c == d) [
  | true ↦ matches_qual sanitize_qual qual to_test
  | false ↦ false
]

unfoldable pub matches_rest : Bool → Bytes → Option Bytes → Bool
unfolding matches_qual
matches_rest sanitize_qual qual none = false
matches_rest sanitize_qual qual (some to_test) = matches_qual sanitize_qual qual to_test

-- `qual_match`; its callers always give a string to test and a prefix.
unfoldable pub qual_match : Bytes → Bytes → Option Bytes → Bool → Bool
unfolding after_prefix matches_rest
qual_match [] prefix none sanitize_qual = true
qual_match [] prefix (some []) sanitize_qual = true
qual_match [] prefix (some (c ∷ qual)) sanitize_qual = false
qual_match (d ∷ to_test) prefix none sanitize_qual = false
qual_match (d ∷ to_test) prefix (some qual) sanitize_qual =
    matches_rest sanitize_qual qual (after_prefix prefix (d ∷ to_test))

unfoldable pub names : Option Bytes → Bytes → Bool
names none serial = false
names (some s) serial = bytes_eq serial s

-- The long condition of `acquire_one_transport`.
unfoldable pub matches_serial : Bytes → Entry → Bool
unfolding names qual_match
matches_serial serial t =
    names t.serial serial
    || (names t.devpath serial
        || (qual_match serial (codes "product:") t.product false
            || (qual_match serial (codes "model:") t.model true
                || qual_match serial (codes "device:") t.device false)))

unfoldable pub wants_type : TransportType → TransportType → Bool
wants_type transport_usb transport_usb = true
wants_type transport_local transport_local = true
wants_type transport_any t = true
wants_type _ _ = false

-- Which of the chain of tests takes this transport.
unfoldable pub selects : Option Bytes → TransportType → Entry → Bool
unfolding matches_serial wants_type
selects none ttype t = wants_type ttype t.ttype
selects (some serial) ttype t = matches_serial serial t

abbrev pub is_noperm : ConnectionState → Bool
is_noperm ConnectionState.cs_noperm = true
is_noperm _ = false

-- `*error_out`
pub data Complaint : Type 0 where
  not_found insufficient_permissions more_than_one offline invalid_state : Complaint

-- What the loop over the list leaves: `result`, the error string and `ambiguous`.
pub record Search : Type 0 where
  pub result : Option Entry
  pub complaint : Complaint
  pub ambiguous : Bool

unfoldable pub seek : Option Bytes → TransportType → Option Entry → Complaint → List Entry → Search
seek serial ttype result complaint [] = record {
  result = result;
  complaint = complaint;
  ambiguous = false;
}
seek serial ttype none complaint (t ∷ ts) = elim (is_noperm t.connection_state) [
  | true ↦ seek serial ttype none insufficient_permissions ts
  | false ↦ elim (selects serial ttype t) [
    | true ↦ seek serial ttype (some t) complaint ts
    | false ↦ seek serial ttype none complaint ts
  ]
]
seek serial ttype (some r) complaint (t ∷ ts) = elim (is_noperm t.connection_state) [
  | true ↦ seek serial ttype (some r) insufficient_permissions ts
  | false ↦ elim (selects serial ttype t) [
    | true ↦ record { result = none; complaint = more_than_one; ambiguous = true }
    | false ↦ seek serial ttype (some r) complaint ts
  ]
]

-- `state!=CS_ANY&&result->connection_state!=state`; CS_ANY is `none`.
abbrev pub state_number : ConnectionState → ℕ
state_number ConnectionState.cs_offline = 0
state_number ConnectionState.cs_bootloader = 1
state_number ConnectionState.cs_device = 2
state_number ConnectionState.cs_host = 3
state_number ConnectionState.cs_recovery = 4
state_number ConnectionState.cs_noperm = 5
state_number ConnectionState.cs_sideload = 6

unfoldable pub wrong_state : Option ConnectionState → ConnectionState → Bool
wrong_state none s = false
wrong_state (some state) s = not (state_number s == state_number state)

-- How one round ends: with a transport, with NULL and an error, or with a second of sleep and
-- another round.
pub data Acquired : Type 0 where
  acquired : Entry → Acquired
  refused_with again_after : Complaint → Acquired

unfoldable pub give_up : Option ConnectionState → Option Bytes → Complaint → Bool → Acquired
give_up none serial complaint ambiguous = refused_with complaint
give_up (some state) (some serial) complaint ambiguous = again_after complaint
give_up (some state) none complaint true = refused_with complaint
give_up (some state) none complaint false = again_after complaint

unfoldable pub checked_state : Option ConnectionState → Option Bytes → Search → Acquired
unfolding wrong_state give_up
checked_state state serial s = elim s.result [
  | none ↦ give_up state serial s.complaint s.ambiguous
  | some t ↦
      if state_number t.connection_state == 0
      then give_up state serial offline s.ambiguous
      else if wrong_state state t.connection_state
      then give_up state serial invalid_state s.ambiguous
      else acquired t
]

-- One round of `acquire_one_transport`.
unfoldable pub acquire_round :
    Option ConnectionState → TransportType → Option Bytes → List Entry → Acquired
unfolding seek checked_state
acquire_round state ttype serial ts =
    checked_state state serial (seek serial ttype none not_found ts)

-- The rounds, each at the list as it stands then; it sleeps without end if none succeeds.
unfoldable pub acquire_one_transport :
    Option ConnectionState → TransportType → Option Bytes → List (List Entry) → Acquired
unfolding acquire_round
acquire_one_transport state ttype serial [] = again_after not_found
acquire_one_transport state ttype serial (ts ∷ later) = elim (acquire_round state ttype serial ts) [
  | acquired t ↦ acquired t
  | refused_with c ↦ refused_with c
  | again_after c ↦ acquire_one_transport state ttype serial later
]
