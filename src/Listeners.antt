-- ===== src/Listeners.antt =====
-- The listeners of src/adbd/adb.c: what `adb forward` installs, removes and lists. A transport is a
-- number, and `serial_of` gives its serial number. Binding a name is an argument: `bind` says which
-- descriptor `local_name_to_fd` gives, if any. The list is in the order of installation.
pub mod Names
pub mod Format
use adbd.Base.{◌/◌, ◌||◌, codes, drop}
use adbd.Base.{
  Option, none, some, ℕ, ◌+◌, ◌-◌, Bool, true, false, List, [], ◌∷◌, ◌++◌, Bytes, ltb, ◌==◌,
  if◌then◌else◌, length, take,
}
use adbd.Jdwp.{hex4}
use adbd.Transport.{bytes_eq, starts_with, split_at}

pub record Listener : Type 0 where
  pub local_name : Bytes
  pub connect_to : Bytes
  pub transport : Option ℕ
  pub fd : ℕ

-- `l->connect_to[0]=='*'`
unfoldable pub is_star : Bytes → Bool
is_star [] = false
is_star (c ∷ cs) = c == 42

-- `install_status_t`
pub data Status : Type 0 where
  status_ok internal_error cannot_bind cannot_rebind : Status

-- The loop of `install_listener`: what it does to a listener of that name, if there is one.
unfoldable pub rebind :
    Bytes → Bytes → Option ℕ → Bool → List Listener → Option (List Listener × Status)
unfolding is_star
rebind name connect_to transport no_rebind [] = none
rebind name connect_to transport no_rebind (l ∷ ls) = elim (bytes_eq name l.local_name) [
  | true ↦
      if is_star l.connect_to
      then some (l ∷ ls, internal_error)
      else if no_rebind
      then some (l ∷ ls, cannot_rebind)
      else some (record l { connect_to = connect_to; transport = transport } ∷ ls, status_ok)
  | false ↦ elim (rebind name connect_to transport no_rebind ls) [
    | none ↦ none
    | some r ↦ some (l ∷ r.0, r.1)
  ]
]

-- A new listener at the end of the list.
unfoldable pub bind_new :
    Bytes → Bytes → Option ℕ → List Listener → Option ℕ → List Listener × Status
bind_new name connect_to transport ls none = (ls, cannot_bind)
bind_new name connect_to transport ls (some fd) = (
  ls
      ++ (record { local_name = name; connect_to = connect_to; transport = transport; fd = fd }
          ∷ []),
  status_ok,
)

unfoldable pub install_listener :
    (Bytes → Option ℕ) → Bytes → Bytes → Option ℕ → Bool → List Listener → List Listener × Status
unfolding rebind bind_new
install_listener bind name connect_to transport no_rebind ls =
    elim (rebind name connect_to transport no_rebind ls) [
      | none ↦ bind_new name connect_to transport ls (bind name)
      | some r ↦ r
    ]

-- `remove_listener`: the first of that name goes, whatever its transport; `none` is -1.
unfoldable pub remove_listener : Bytes → List Listener → Option (List Listener)
remove_listener name [] = none
remove_listener name (l ∷ ls) = elim (bytes_eq name l.local_name) [
  | true ↦ some ls
  | false ↦ elim (remove_listener name ls) [ none ↦ none | some r ↦ some (l ∷ r) ]
]

unfoldable pub remove_all_listeners : List Listener → List Listener
unfolding is_star
remove_all_listeners [] = []
remove_all_listeners (l ∷ ls) =
    let rest = remove_all_listeners ls in if is_star l.connect_to then l ∷ rest else rest

-- `listener_disconnect` of every listener of a transport that goes.
unfoldable pub is_on : ℕ → Option ℕ → Bool
is_on t none = false
is_on t (some u) = u == t

unfoldable pub listeners_disconnect : ℕ → List Listener → List Listener
unfolding is_on
listeners_disconnect t [] = []
listeners_disconnect t (l ∷ ls) =
    let rest = listeners_disconnect t ls in if is_on t l.transport then rest else l ∷ rest

-- `l->transport->serial`; none is a null pointer, as that of every USB transport, or one behind a
-- null transport. strlen of it ends the process.
abbrev pub serial_on : (ℕ → Option Bytes) → Option ℕ → Option Bytes
serial_on serial_of none = none
serial_on serial_of (some t) = serial_of t

-- The line that `format_listener` prints, with the serial number.
unfoldable pub listener_line : Bytes → Listener → Bytes
listener_line serial l = serial ++ (32 ∷ (l.local_name ++ (32 ∷ (l.connect_to ++ (10 ∷ [])))))

-- The length that `format_listener` returns.
unfoldable pub format_listener : Bytes → Listener → ℕ
format_listener serial l = length l.local_name + length l.connect_to + length serial + 3

-- `format_listeners(NULL,0)`; none is a null serial number.
unfoldable pub add_line : Listener → Option Bytes → Option ℕ → Option ℕ
unfolding format_listener
add_line l none rest = none
add_line l (some serial) none = none
add_line l (some serial) (some n) = some (format_listener serial l + n)

unfoldable pub listeners_size : (ℕ → Option Bytes) → List Listener → Option ℕ
unfolding is_star add_line
listeners_size serial_of [] = some 0
listeners_size serial_of (l ∷ ls) =
    let rest = listeners_size serial_of ls in
    if is_star l.connect_to then rest else add_line l (serial_on serial_of l.transport) rest

-- `format_listeners` into a buffer: the sum of the lengths and the text; or a write past the buffer,
-- since `buflen-=len` wraps when the line did not fit; or a null serial number.
pub data Formatted : Type 0 where
  formatted : ℕ → Bytes → Formatted
  overrun null_serial : Formatted

unfoldable pub longer : ℕ → Bytes → Formatted → Formatted
longer n text (formatted m rest) = formatted (n + m) (text ++ rest)
longer n text overrun = overrun
longer n text null_serial = null_serial

-- A round of the loop, with what the later ones do.
unfoldable pub print_line : Listener → ℕ → Option Bytes → (ℕ → Formatted) → Formatted
unfolding format_listener listener_line longer
print_line l buflen none later = null_serial
print_line l buflen (some serial) later =
    let size = format_listener serial l in
    let rest = later (buflen - size) in
    if ltb size buflen
    then longer size (listener_line serial l) rest
    else if size == buflen
    then formatted buflen (take (buflen - 1) (listener_line serial l))
    else overrun

unfoldable pub format_listeners : (ℕ → Option Bytes) → ℕ → List Listener → Formatted
unfolding is_star print_line
format_listeners serial_of buflen [] = formatted 0 []
format_listeners serial_of buflen (l ∷ ls) =
    let rest = format_listeners serial_of buflen ls in
    if is_star l.connect_to
    then rest
    else print_line l buflen (serial_on serial_of l.transport)
        (λ left. format_listeners serial_of left ls)

-- `"OKAY%04x"` in a header of 9 bytes: of a number with more than four digits the first four.
unfoldable pub announce : ℕ → Bytes
announce n =
    codes "OKAY"
    ++ hex4 (
        if ltb n 65536
        then n
        else if ltb n 1048576
        then n / 16
        else if ltb n 16777216
        then n / 256
        else if ltb n 268435456
        then n / 4096
        else n / 65536)

-- What "list-forward" comes to: the header and the text that are written; a write past the buffer;
-- or the end of the process at a null serial number.
pub data Listed : Type 0 where
  listed : Bytes → Bytes → Listed
  past_buffer crashed : Listed

-- The text behind the header; malloc gave `size+1` bytes.
unfoldable pub body_of : ℕ → Formatted → Listed
unfolding announce
body_of size (formatted n text) = listed (announce size) (take size text)
body_of size overrun = past_buffer
body_of size null_serial = crashed

-- "list-forward" of `handle_host_request`.
unfoldable pub list_forward : (ℕ → Option Bytes) → List Listener → Listed
unfolding listeners_size format_listeners body_of
list_forward serial_of ls = elim (listeners_size serial_of ls) [
  | none ↦ crashed
  | some size ↦ body_of size (format_listeners serial_of (size + 1) ls)
]

-- The requests that `handle_host_request` knows.
pub data HostRequest : Type 0 where
  kill_request list_request remove_all_request malformed_request get_state_request unknown_request :
      HostRequest
  forward_request : Bytes → Bytes → Bool → HostRequest
  remove_request : Bytes → HostRequest

unfoldable pub is_empty : Bytes → Bool
is_empty [] = true
is_empty (c ∷ cs) = false

-- "forward:" behind `norebind:`: the local name, then ';' and the target.
unfoldable pub forward_of : Bool → Bytes × Option Bytes → HostRequest
unfolding is_empty is_star
forward_of no_rebind (local, none) = malformed_request
forward_of no_rebind (local, some remote) =
    if is_empty local || (is_empty remote || is_star remote)
    then malformed_request
    else forward_request local remote no_rebind

unfoldable pub host_request : Bytes → HostRequest
unfolding forward_of is_empty
host_request service =
    if bytes_eq service (codes "kill")
    then kill_request
    else if bytes_eq service (codes "list-forward")
    then list_request
    else if bytes_eq service (codes "killforward-all")
    then remove_all_request
    else if starts_with (codes "forward:norebind:") service
    then forward_of true (split_at 59 (drop 17 service))
    else if starts_with (codes "forward:") service
    then forward_of false (split_at 59 (drop 8 service))
    else if starts_with (codes "killforward:") service
    then (if is_empty (drop 12 service)
        then malformed_request
        else remove_request (drop 12 service))
    else if starts_with (codes "get-state") service
    then get_state_request
    else unknown_request

-- `sendfailmsg`'s text for a failure of `install_listener`.
unfoldable pub failure_text : Status → Option Bytes
failure_text status_ok = none
failure_text internal_error = some (codes "internal error")
failure_text cannot_bind = some (codes "cannot bind to socket")
failure_text cannot_rebind = some (codes "cannot rebind existing socket")
