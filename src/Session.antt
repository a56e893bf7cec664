-- ===== src/Session.antt =====
-- The packet handler of src/adbd/adb.c, with the device's side of authentication in
-- src/adbd/adb_auth_client.c and the functions of src/adbd/sockets.c and src/adbd/transport.c that
-- it calls.
pub mod Handler
pub mod Gate
pub mod Auth
pub mod Down
pub mod Traffic
pub mod Opening
pub mod Pairing
pub mod Safety
pub mod Alive
pub mod Machine
pub mod Banner
use adbd.Base.{
  ℕ, zero, suc, ◌+◌, ◌-◌, ◌/◌, ◌%◌, ◌^◌, Bool, true, false, not, ◌&&◌, ◌||◌, Option, none, some,
  List, [], ◌∷◌, ◌++◌, ◌==◌, ltb, leb, if◌then◌else◌, Bytes, codes, length, set, get_or,
}
use adbd.Packet.{
  Message, Packet, a_sync, a_cnxn, a_open, a_okay, a_clse, a_wrte, a_auth, a_version, max_payload,
}
use adbd.Transport.{
  ConnectionState, cs_offline, is_offline, Transport, c_string, bytes_eq, starts_with, parse_banner,
}
use adbd.Services.{Service, service_of}
use adbd.Sockets.{
  watched, absent, present, Framework, Socket, Store, Run, ok, exited, fault, out_of_fuel, Cmd,
  pure, ◌>>=◌, ◌>>◌, update, load, modify, free, find_local_socket,
}
use adbd.Sockets.Ops.{packet, send_packet, remove_transport_disconnect, close, drop_peer}
use adbd.Sockets.Transfer.{
  Answer, settled, waiting, gone, enqueue, ready, create_local_socket, create_remote_socket,
  create_jdwp_service_socket, create_jdwp_tracker_service_socket,
}

-- What the handler takes from outside: the process's flags and texts, what the operating system
-- does for a service, what `adb_auth_generate_token` reads, and
-- whether a key of a given text can be written to it.
pub record Env : Type 0 where
  pub host : Bool
  pub auth_enabled : Bool
  pub recovery : Bool
  pub uid : ℕ
  pub banner : Bytes
  pub product : Bytes
  pub model : Bytes
  pub device : Bytes
  pub open_service : Service → Option ℕ
  pub random : Option Bytes
  pub key_written : Bytes → Bool

-- The fuel of every close that the handler makes.
abbrev pub depth : ℕ
depth = 3

abbrev pub with_transport : ℕ → (Transport → Transport) → Cmd (Unit {0})
with_transport t f st =
    ok tt (record st { transports = update st.transports t (f (st.transports t)) })

unfoldable pub handle_online : ℕ → Cmd (Unit {0})
handle_online t = with_transport t (λ x. record x { online = true })

-- `remote_socket_disconnect`
unfoldable pub remote_socket_disconnect : ℕ → Cmd (Unit {0})
unfolding load drop_peer close remove_transport_disconnect free
remote_socket_disconnect p = do
  s ← load p
  drop_peer (close depth) s.peer
  remove_transport_disconnect s.transport p
  free p

-- `run_transport_disconnects` over the members of the list. The source reads a node's successor
-- before it calls the node's function, and that function takes no other node off the list.
unfoldable pub run_disconnects : List ℕ → Cmd (Unit {0})
unfolding remote_socket_disconnect
run_disconnects [] = pure tt
run_disconnects (p ∷ ps) = do remote_socket_disconnect p; run_disconnects ps

unfoldable pub handle_offline : ℕ → Cmd (Unit {0})
unfolding run_disconnects
handle_offline t = do
  with_transport t (λ x. record x { online = false })
  λ st. run_disconnects (st.disconnects t) st

unfoldable pub send_ready : ℕ → ℕ → ℕ → Cmd (Unit {0})
unfolding send_packet
send_ready local remote t = send_packet (packet a_okay local remote) (some t)

unfoldable pub send_close : ℕ → ℕ → ℕ → Cmd (Unit {0})
unfolding send_packet
send_close local remote t = send_packet (packet a_clse local remote) (some t)

-- The text of `fill_connect_data`.
unfoldable pub connect_text : Env → Bytes
connect_text e =
    e.banner
    ++ (codes "::"
        ++ (codes "ro.product.name="
            ++ (e.product
                ++ (codes ";"
                    ++ (codes "ro.product.model="
                        ++ (e.model
                            ++ (codes ";"
                                ++ (codes "ro.product.device=" ++ (e.device ++ codes ";")))))))))

-- A packet whose data is `bs`.
abbrev pub data_packet : ℕ → ℕ → ℕ → Bytes → Packet
data_packet command arg0 arg1 bs = record {
  msg = record {
    command = command;
    arg0 = arg0;
    arg1 = arg1;
    data_length = length bs;
    data_check = 0;
    magic = 0;
  };
  len = 0;
  bytes = bs;
}

-- `send_connect`. A text that does not fit the packet with its zero byte is written past its end.
unfoldable pub send_connect : Env → ℕ → Cmd (Unit {0})
unfolding connect_text send_packet
send_connect e t =
    if ltb (length (connect_text e)) max_payload
    then send_packet (data_packet a_cnxn a_version max_payload (connect_text e ++ (0 ∷ [])))
        (some t)
    else λ _. fault

-- `send_auth_request`: nothing is sent when no token of `TOKEN_SIZE` bytes could be read.
unfoldable pub send_token : ℕ → Option Bytes → Cmd (Unit {0})
unfolding send_packet
send_token t none = pure tt
send_token t (some token) = do
  with_transport t (λ x. record x { token = token })
  send_packet (data_packet a_auth 1 0 token) (some t)

abbrev pub send_auth_request : Env → ℕ → Cmd (Unit {0})
send_auth_request e t = send_token t e.random

unfoldable pub adb_auth_verified : Env → ℕ → Cmd (Unit {0})
unfolding handle_online send_connect
adb_auth_verified e t = do handle_online t; send_connect e t

-- `adb_auth_verify`, whose body is commented out but for `return 0`.
unfoldable pub adb_auth_verify : Bytes → Bytes → Bool
adb_auth_verify token sig = false

-- The byte `key[len-1]`; with `len` 0 it is the last byte of the header, which stands before the data.
unfoldable pub last_key_byte : Packet → ℕ
last_key_byte p = elim p.msg.data_length [
  | zero ↦ p.msg.magic / 2 ^ 24 % 256
  | suc n ↦ get_or p.bytes n 0
]

abbrev pub set_framework : Framework → Cmd (Unit {0})
set_framework f st = ok tt (record st { framework = f })

-- The end of `adb_auth_confirm_key`: fdevent_install clears the transport's fdevent, so that
-- fdevent_add asks epoll for a new descriptor. For one that epoll holds the call fails with EEXIST,
-- and fdevent_update ends the process.
unfoldable pub watch_framework : ℕ → Framework → Cmd (Unit {0})
watch_framework t absent = pure tt
watch_framework t present =
    (set_framework watched >> with_transport t (λ x. record x { auth_wait = true }))
watch_framework t watched = exited

abbrev pub is_absent : Framework → Bool
is_absent absent = true
is_absent present = false
is_absent watched = false

-- `adb_auth_confirm_key` with what `framework_fd` is: the key goes to the framework, and its answer
-- is waited for.
unfoldable pub confirm_key_with : Env → Packet → ℕ → Framework → Cmd (Unit {0})
unfolding last_key_byte c_string watch_framework
confirm_key_with e p t f =
    if is_absent f
    then pure tt
    else if not (last_key_byte p == 0)
    then pure tt
    else if leb max_payload (2 + length (c_string p.bytes))
    then pure tt
    else if not (e.key_written (codes "PK" ++ c_string p.bytes))
    then pure tt
    else watch_framework t f

unfoldable pub adb_auth_confirm_key : Env → Packet → ℕ → Cmd (Unit {0})
unfolding confirm_key_with
adb_auth_confirm_key e p t st = confirm_key_with e p t st.framework st

-- `adb_auth_listener`, whose accept gives a new descriptor.
unfoldable pub adb_auth_listener : Cmd (Unit {0})
adb_auth_listener = set_framework present

-- `adb_auth_event` with what the read of the framework's answer gave: none is a failure. The keys
-- that are read again have no other use, since `adb_auth_verify` reads none.
unfoldable pub adb_auth_event : Env → ℕ → Option Bytes → Cmd (Unit {0})
unfolding bytes_eq adb_auth_verified
adb_auth_event e t none =
    (set_framework absent >> with_transport t (λ x. record x { auth_wait = false }))
adb_auth_event e t (some response) =
    if bytes_eq response (codes "OK") then adb_auth_verified e t else pure tt
