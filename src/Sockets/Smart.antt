-- ===== src/Sockets/Smart.antt =====
-- The smart socket of src/adbd/sockets.c, which collects a request from the packets of a local
-- client, `connect_to_remote`, and `skip_host_serial`.
pub mod Requests
pub mod Serials
use adbd.Base.{
  Option, none, some, ℕ, ◌+◌, ◌-◌, Bool, true, false, ◌&&◌, ◌||◌, [], ◌∷◌, ◌++◌, Bytes, codes, ltb,
  leb, ◌==◌, if◌then◌else◌, length, take, drop,
}
use adbd.Sockets.{Cmd, ◌>>=◌, load, exited}
use adbd.Sockets.Ops.{packet, send_packet}
use adbd.Sockets.Hex.{unhex}
use adbd.Packet.{max_payload, a_open}
use adbd.Transport.{c_string, starts_with}

-- `connect_to_remote`: OPEN with the text and its zero byte. `fatal` ends the process.
unfoldable pub connect_to_remote : ℕ → Bytes → Cmd (Unit {0})
unfolding load send_packet
connect_to_remote p destination =
    if ltb (max_payload - 1) (length destination + 1)
    then exited
    else (load p >>= λ s.
        send_packet
          (record (packet a_open s.id 0) {
            msg = record (packet a_open s.id 0).msg { data_length = length destination + 1 };
            bytes = destination ++ (0 ∷ []);
          })
          s.transport)

-- What acquire_one_transport comes to, with the state of the transport it returns: an error text, or
-- a transport that is offline or not.
pub data Reach : Type 0 where
  unreachable : Bytes → Reach
  reaches : Bool → Reach

-- What an `enqueue` comes to: the bytes that are kept and 0; a close and -1, with the text that
-- sendfailmsg sends, if any; or the destination that is connected to, and 1.
pub data Smart : Type 0 where
  keeps : Bytes → Smart
  fails : Option Bytes → Smart
  connects : Bytes → Smart

-- The end of the function, over the request's text.
unfoldable pub smart_connect : Reach → Bytes → Smart
unfolding c_string
smart_connect (unreachable error) text = fails (some error)
smart_connect (reaches true) text = fails (some (codes "device offline(x)"))
smart_connect (reaches false) text = connects (c_string text)

-- The tests of the bytes that there are. The text is cut off behind its length.
unfoldable pub smart_request : Reach → Bytes → Smart
unfolding unhex smart_connect
smart_request r d =
    let len = unhex d 4 in
    if ltb (length d) 4
    then keeps d
    else if ltb len 1 || ltb 1024 len
    then fails none
    else if ltb (length d) (len + 4)
    then keeps d
    else smart_connect r (take len (drop 4 d))

-- `smart_socket_enqueue`, with the bytes kept so far, if there are any.
unfoldable pub smart_socket_enqueue : Reach → Option Bytes → Bytes → Smart
unfolding smart_request
smart_socket_enqueue r none p = smart_request r p
smart_socket_enqueue r (some first) p =
    if ltb max_payload (length first + length p) then fails none else smart_request r (first ++ p)

-- `isdigit`
abbrev pub is_digit : ℕ → Bool
is_digit c = leb 48 c && leb c 57

-- `while((*serial_end)&&isdigit(*serial_end))serial_end++`
unfoldable pub skip_digits : Bytes → Bytes
skip_digits [] = []
skip_digits (c ∷ s) = let rest = skip_digits s in if is_digit c then rest else c ∷ s

-- `strchr`: the string from the first `c` on.
unfoldable pub strchr : ℕ → Bytes → Option Bytes
strchr c [] = none
strchr c (b ∷ s) = let rest = strchr c s in if b == c then some (b ∷ s) else rest

-- The colon that ends a serial number, with what follows the first colon: digits and a colon are a
-- port, which belongs to the serial number.
unfoldable pub serial_end : Bytes → Bytes
unfolding skip_digits
serial_end [] = b':' ∷ []
serial_end (c ∷ s) = elim (skip_digits (c ∷ s)) [
  | [] ↦ b':' ∷ (c ∷ s)
  | d ∷ rest ↦ if is_digit c && d == b':' then d ∷ rest else b':' ∷ (c ∷ s)
]

unfoldable pub behind_colon : Option Bytes → Option Bytes
unfolding serial_end
behind_colon none = none
behind_colon (some []) = none
behind_colon (some (c ∷ s)) = some (serial_end s)

-- `skip_host_serial`: what follows the serial number, from its colon on.
unfoldable pub skip_host_serial : Bytes → Option Bytes
unfolding strchr starts_with behind_colon
skip_host_serial service =
    if starts_with (codes "usb:") service
    then strchr b':' (drop 4 service)
    else if starts_with (codes "product:") service
    then strchr b':' (drop 8 service)
    else if starts_with (codes "model:") service
    then strchr b':' (drop 6 service)
    else if starts_with (codes "device:") service
    then strchr b':' (drop 7 service)
    else behind_colon (strchr b':' service)
