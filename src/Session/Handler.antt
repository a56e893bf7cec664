-- ===== src/Session/Handler.antt =====
-- The branches of `handle_packet` of src/adbd/adb.c, and the events of one transport in turn.
use adbd.Base.{
  ℕ, ◌+◌, ◌-◌, ◌%◌, ◌^◌, Bool, true, false, not, ◌&&◌, ◌||◌, Option, none, some, List, [], ◌∷◌,
  ◌==◌, if◌then◌else◌, Bytes, codes, set,
}
use adbd.Packet.{Packet, a_sync, a_cnxn, a_open, a_okay, a_clse, a_wrte, a_auth}
use adbd.Transport.{
  ConnectionState, cs_offline, is_offline, c_string, bytes_eq, starts_with, parse_banner,
}
use adbd.Services.{Service, service_of}
use adbd.Sockets.{Cmd, pure, ◌>>=◌, ◌>>◌, load, modify, find_local_socket}
use adbd.Sockets.Ops.{send_packet, close}
use adbd.Sockets.Transfer.{
  Answer, settled, waiting, gone, enqueue, ready, create_local_socket, create_remote_socket,
  create_jdwp_service_socket, create_jdwp_tracker_service_socket,
}
use adbd.Session.{
  adb_auth_listener, Env, adb_auth_confirm_key, adb_auth_event, adb_auth_verified, adb_auth_verify,
  depth, handle_offline, handle_online, send_auth_request, send_close, send_connect, send_ready,
  send_token, with_transport,
}

-- The case A_SYNC.
unfoldable pub handle_sync : Env → Packet → ℕ → Cmd (Unit {0})
unfolding send_packet send_connect handle_offline
handle_sync e p t =
    if not (p.msg.arg0 == 0)
    then (send_packet p (some t) >> (if e.host then send_connect e t else pure tt))
    else (with_transport t (λ x. record x { connection_state = cs_offline })
        >> handle_offline t
        >> send_packet p (some t))

-- The first test of the case A_CNXN.
unfoldable pub go_offline : ConnectionState → ℕ → Cmd (Unit {0})
unfolding handle_offline
go_offline state t =
    if is_offline state
    then pure tt
    else (with_transport t (λ x. record x { connection_state = cs_offline }) >> handle_offline t)

-- The end of the case A_CNXN: online at once, or a token to sign.
unfoldable pub greet : Env → ℕ → Cmd (Unit {0})
unfolding handle_online send_connect send_token
greet e t =
    if e.host || not e.auth_enabled
    then (handle_online t >> (if e.host then pure tt else send_connect e t))
    else send_auth_request e t

-- The case A_CNXN.
unfoldable pub handle_connect : Env → Packet → ℕ → Cmd (Unit {0})
unfolding go_offline parse_banner c_string greet
handle_connect e p t = do
  λ st. go_offline (st.transports t).connection_state t st
  with_transport t (parse_banner (c_string p.bytes))
  greet e t

-- The branch of A_AUTH for a signature.
unfoldable pub handle_signature : Env → Packet → ℕ → Bool → Cmd (Unit {0})
unfolding adb_auth_verified
handle_signature e p t true = do
  adb_auth_verified e t
  with_transport t (λ x. record x { failed_auth_attempts = 0 })
handle_signature e p t false = do
  with_transport t (λ x. record x { failed_auth_attempts = (x.failed_auth_attempts + 1) % 2 ^ 32 })
  send_auth_request e t

-- The case A_AUTH. A token (argument 1) is for the host's side: `adb_auth_nextkey`,
-- `adb_auth_sign` and `adb_auth_get_userkey` are stubs on the device, and nothing is sent.
unfoldable pub handle_auth : Env → Packet → ℕ → Cmd (Unit {0})
unfolding handle_signature adb_auth_verify adb_auth_confirm_key
handle_auth e p t =
    if p.msg.arg0 == 1
    then pure tt
    else if p.msg.arg0 == 2
    then (λ st. handle_signature e p t (adb_auth_verify (st.transports t).token p.bytes) st)
    else if p.msg.arg0 == 3
    then adb_auth_confirm_key e p t
    else pure tt

-- The end of `create_local_service_socket`.
unfoldable pub service_socket : Env → Bytes → Option ℕ → Cmd (Option ℕ)
unfolding create_local_socket modify starts_with
service_socket e name none = pure none
service_socket e name (some fd) = do
  p ← create_local_socket fd
  modify p (λ s. record s {
    exit_on_close =
        (starts_with (codes "root:") name && not (e.uid == 0))
        || (starts_with (codes "usb:") name || starts_with (codes "tcpip:") name);
  })
  pure (some p)

abbrev pub open_name : Env → Option Service → Option ℕ
open_name e none = none
open_name e (some s) = e.open_service s

unfoldable pub create_local_service_socket : Env → Bytes → Cmd (Option ℕ)
unfolding bytes_eq create_jdwp_service_socket create_jdwp_tracker_service_socket service_of
    service_socket
create_local_service_socket e name =
    if bytes_eq name (codes "jdwp")
    then (create_jdwp_service_socket >>= λ p. pure (some p))
    else if bytes_eq name (codes "track-jdwp")
    then (create_jdwp_tracker_service_socket >>= λ p. pure (some p))
    else service_socket e name (open_name e (service_of e.recovery e.host name))

-- A local socket and a new remote one become each other's peer.
unfoldable pub pair_up : ℕ → ℕ → ℕ → Cmd ℕ
unfolding create_remote_socket modify
pair_up p id t = do
  q ← create_remote_socket id t
  modify p (λ s. record s { peer = some q })
  modify q (λ s. record s { peer = some p })
  pure q

unfoldable pub opened : Packet → ℕ → Option ℕ → Cmd (Unit {0})
unfolding send_close pair_up load send_ready ready
opened p t none = send_close 0 p.msg.arg0 t
opened p t (some l) = do
  q ← pair_up l p.msg.arg0 t
  s ← load l
  r ← load q
  send_ready s.id r.id t
  ready depth l

-- The name in an OPEN packet: its last byte is made zero.
abbrev pub open_request : Packet → Bytes
open_request p = c_string (set p.bytes (p.msg.data_length - 1) 0)

unfoldable pub handle_open : Env → Packet → ℕ → Cmd (Unit {0})
unfolding c_string create_local_service_socket opened
handle_open e p t = do l ← create_local_service_socket e (open_request p); opened p t l

-- The remote peer that A_OKAY makes for a socket that has none.
unfoldable pub ensure_peer : Packet → ℕ → ℕ → Option ℕ → Cmd (Unit {0})
unfolding pair_up
ensure_peer p t l (some q) = pure tt
ensure_peer p t l none = pair_up l p.msg.arg0 t >>= λ q. pure tt

unfoldable pub handle_okay : Packet → ℕ → Option ℕ → Cmd (Unit {0})
unfolding load ensure_peer ready
handle_okay p t none = pure tt
handle_okay p t (some l) = do s ← load l; ensure_peer p t l s.peer; ready depth l

unfoldable pub handle_close : Option ℕ → Cmd (Unit {0})
unfolding close
handle_close none = pure tt
handle_close (some l) = close depth l

-- `send_ready` behind an `enqueue` that returned 0.
unfoldable pub answer : ℕ → ℕ → ℕ → Answer → Cmd (Unit {0})
unfolding load send_ready
answer l remote t settled = do s ← load l; send_ready s.id remote t
answer l remote t waiting = pure tt
answer l remote t gone = pure tt

unfoldable pub handle_write : Packet → ℕ → Option ℕ → Cmd (Unit {0})
unfolding enqueue answer
handle_write p t none = pure tt
handle_write p t (some l) = do
  a ← enqueue depth l (record p { len = p.msg.data_length })
  answer l p.msg.arg0 t a

-- A case that does nothing on a transport that is not online.
abbrev pub when_online : ℕ → Cmd (Unit {0}) → Cmd (Unit {0})
when_online t m st = (if (st.transports t).online then m else pure tt) st

-- `handle_packet`.
unfoldable pub handle_packet : Env → Packet → ℕ → Cmd (Unit {0})
unfolding handle_sync handle_connect handle_auth handle_open handle_okay handle_close handle_write
    find_local_socket
handle_packet e p t =
    if p.msg.command == a_sync
    then handle_sync e p t
    else if p.msg.command == a_cnxn
    then handle_connect e p t
    else if p.msg.command == a_auth
    then handle_auth e p t
    else if p.msg.command == a_open
    then when_online t (handle_open e p t)
    else if p.msg.command == a_okay
    then when_online t (find_local_socket p.msg.arg1 >>= handle_okay p t)
    else if p.msg.command == a_clse
    then when_online t (find_local_socket p.msg.arg1 >>= handle_close)
    else if p.msg.command == a_wrte
    then when_online t (find_local_socket p.msg.arg1 >>= handle_write p t)
    else pure tt

-- What the event thread gets: a packet from the transport, or the framework's answer, which is read
-- only where its fdevent is installed.
pub data Event : Type 0 where
  arrives : Packet → ℕ → Event
  answers : Option Bytes → ℕ → Event
  framework_comes : Event

unfoldable pub handle_event : Env → Event → Cmd (Unit {0})
unfolding handle_packet adb_auth_event adb_auth_listener
handle_event e (arrives p t) = handle_packet e p t
handle_event e (answers r t) =
    λ st. (if (st.transports t).auth_wait then adb_auth_event e t r else pure tt) st
handle_event e framework_comes = adb_auth_listener

unfoldable pub handle_events : Env → List Event → Cmd (Unit {0})
unfolding handle_event
handle_events e [] = pure tt
handle_events e (v ∷ vs) = do handle_event e v; handle_events e vs
