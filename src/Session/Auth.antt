-- ===== src/Session/Auth.antt =====
-- Authentication: with it enabled on a device, what brings a transport online.
use adbd.Session.{last_key_byte}
use adbd.Base.{not, leb, ◌==◌}
use adbd.Session.Handler.{framework_comes}
use adbd.Session.{confirm_key_with}
use adbd.Base.{
  ℕ_discrete, ◌++◌, ◌^◌, ◌%◌, ◌+◌, ◌∙◌, ℕ, ◌≡◌, refl, true, false, Option, none, some, List, [],
  ◌∷◌, Bytes, codes, ◌≢◌, arith, All, ltb, length,
}
use adbd.Packet.{a_version, a_cnxn, a_auth, max_payload, Packet}
use adbd.Transport.{
  bytes_eq, split_at, tokens, apply_property, apply_properties, behind_second, properties_of,
  set_property, Transport, parse_banner, cs_offline, ConnectionState,
}
use adbd.Sockets.{Store, Cmd}
use adbd.Sockets.Frame.{free-Keeps, load-Keeps, find_local_socket-Keeps, Ends}
use adbd.Sockets.FrameOps.{
  remove_transport_disconnect-Keeps, close-Keeps, drop_peer-Keeps, send_packet-Keeps,
}
use adbd.Session.Traffic.{
  handle_write-Keeps, handle_close-Keeps, handle_okay-Keeps, handle_open-Keeps,
}
use adbd.Session.Down.{Down, KeepsDown, bind, seq, done, branch, quiet, assign}
use adbd.Session.{
  present, watched, set_framework, is_absent, watch_framework, adb_auth_listener, absent, Framework,
  handle_online, adb_auth_event, adb_auth_verified, data_packet, fault, connect_text, depth, close,
  adb_auth_verify, c_string, adb_auth_confirm_key, remote_socket_disconnect, run_disconnects,
  handle_offline, send_token, send_connect, Env,
}
use adbd.Session.Handler.{
  greet, handle_signature, go_offline, handle_connect, handle_sync, handle_auth, when_online, Event,
  arrives, answers, handle_packet, handle_event, handle_events,
}

set_property-online : (k v : Bytes) (x : Transport) → (set_property k v x).online ≡ x.online
unfolding set_property
set_property-online k v x = ground arith

apply_property-online :
    (kv : Bytes × Option Bytes) (x : Transport) → (apply_property kv x).online ≡ x.online
unfolding apply_property
apply_property-online (k, none) x = refl
apply_property-online (k, some v) x = set_property-online k v x

apply_properties-online :
    (ks : List Bytes) (x : Transport) → (apply_properties ks x).online ≡ x.online
unfolding apply_properties
apply_properties-online [] x = refl
apply_properties-online (k ∷ ks) x =
    apply_properties-online ks (apply_property (split_at b'=' k) x)
    ∙ apply_property-online (split_at b'=' k) x

properties_of-online : (o : Option Bytes) (x : Transport) → (properties_of o x).online ≡ x.online
unfolding properties_of
properties_of-online none x = refl
properties_of-online (some ps) x = apply_properties-online (tokens b';' [] ps) x

parse_banner-online : (bs : Bytes) (x : Transport) → (parse_banner bs x).online ≡ x.online
unfolding parse_banner behind_second
parse_banner-online bs x = go (split_at b':' bs).1
  where
    go : (o : Option Bytes) → (behind_second o x).online ≡ x.online
    go none = refl
    go (some rest) = properties_of-online (split_at b':' rest).1 x

module _ (u : ℕ) where
  disconnect-Down : (p : ℕ) → KeepsDown u (remote_socket_disconnect p)
  unfolding remote_socket_disconnect
  disconnect-Down p = bind (quiet (load-Keeps p)) (λ s.
      seq (quiet (drop_peer-Keeps (close depth) (close-Keeps depth) s.peer))
        (seq (quiet (remove_transport_disconnect-Keeps s.transport p)) (quiet (free-Keeps p))))

  run_disconnects-Down : (ps : List ℕ) → KeepsDown u (run_disconnects ps)
  unfolding run_disconnects
  run_disconnects-Down [] = done tt
  run_disconnects-Down (p ∷ ps) = seq (disconnect-Down p) (run_disconnects-Down ps)

  handle_offline-Down : (t : ℕ) → KeepsDown u (handle_offline t)
  unfolding handle_offline
  handle_offline-Down t =
      seq (assign t (λ x. record x { online = false }) (λ x h. refl))
        (record { holds = λ st d. (run_disconnects-Down (st.disconnects t)).holds st d })

  fault-Down : KeepsDown {A = Unit {0}} u (λ _. fault)
  fault-Down = record { holds = λ st d. tt }

  send_connect-Down : (e : Env) (t : ℕ) → KeepsDown u (send_connect e t)
  unfolding send_connect
  send_connect-Down e t =
      branch (ltb (length (connect_text e)) max_payload)
        (quiet (
          send_packet-Keeps (data_packet a_cnxn a_version max_payload (connect_text e ++ (0 ∷ [])))
            (some t)))
        fault-Down

  send_token-Down : (t : ℕ) (o : Option Bytes) → KeepsDown u (send_token t o)
  unfolding send_token
  send_token-Down t none = done tt
  send_token-Down t (some token) =
      seq (assign t (λ x. record x { token = token }) (λ x h. h))
        (quiet (send_packet-Keeps (data_packet a_auth 1 0 token) (some t)))

  set_framework-Down : (f : Framework) → KeepsDown u (set_framework f)
  set_framework-Down f = record { holds = λ st d. d }

  watch_framework-Down : (t : ℕ) (f : Framework) → KeepsDown u (watch_framework t f)
  unfolding watch_framework
  watch_framework-Down t absent = done tt
  watch_framework-Down t present =
      seq (set_framework-Down watched) (assign t (λ x. record x { auth_wait = true }) (λ x h. h))
  watch_framework-Down t watched = record { holds = λ st d. d }

  confirm_with-Down :
      (e : Env) (p : Packet) (t : ℕ) (f : Framework) → KeepsDown u (confirm_key_with e p t f)
  unfolding confirm_key_with
  confirm_with-Down e p t f = branch (is_absent f) (done tt) (
      branch (not (last_key_byte p == 0)) (done tt) (
        branch (leb max_payload (2 + length (c_string p.bytes))) (done tt) (
          branch (not (e.key_written (codes "PK" ++ c_string p.bytes))) (done tt)
            (watch_framework-Down t f))))

  confirm_key-Down : (e : Env) (p : Packet) (t : ℕ) → KeepsDown u (adb_auth_confirm_key e p t)
  unfolding adb_auth_confirm_key
  confirm_key-Down e p t = record {
    holds = λ st d. (confirm_with-Down e p t st.framework).holds st d;
  }

  sync-Down : (e : Env) (p : Packet) (t : ℕ) → KeepsDown u (handle_sync e p t)
  unfolding handle_sync
  sync-Down e p t =
      branch _
        (seq (quiet (send_packet-Keeps p (some t))) (branch _ (send_connect-Down e t) (done tt)))
        (seq
          (seq (assign t (λ x. record x { connection_state = cs_offline }) (λ x h. h))
            (handle_offline-Down t))
          (quiet (send_packet-Keeps p (some t))))

  go_offline-Down : (c : ConnectionState) (t : ℕ) → KeepsDown u (go_offline c t)
  unfolding go_offline
  go_offline-Down c t = branch _ (done tt) (
      seq (assign t (λ x. record x { connection_state = cs_offline }) (λ x h. h))
        (handle_offline-Down t))

  auth-Down : (e : Env) (p : Packet) (t : ℕ) → KeepsDown u (handle_auth e p t)
  unfolding handle_auth adb_auth_verify handle_signature
  auth-Down e p t = branch _ (done tt) (
      branch _
        (seq
          (assign t (λ x. record x { failed_auth_attempts = (x.failed_auth_attempts + 1) % 2 ^ 32 })
            (λ x h. h))
          (send_token-Down t e.random))
        (branch _ (confirm_key-Down e p t) (done tt)))

  online-Down : (t : ℕ) {m : Cmd (Unit {0})} → KeepsDown u m → KeepsDown u (when_online t m)
  online-Down t {m} k = record {
    holds = λ st d. (branch (st.transports t).online k (done tt)).holds st d;
  }

  elsewhere-Down : (t : ℕ) → t ≢ u → KeepsDown u (handle_online t)
  unfolding handle_online
  elsewhere-Down t ne = record { holds = λ st d. ground arith }

  -- An event other than the framework's "OK" for the transport.
  abbrev pub NotVouched : Event → Type 0
  NotVouched (arrives p t) = Unit
  NotVouched (answers none t) = Unit
  NotVouched (answers (some r) t) = t ≡ u → bytes_eq r (codes "OK") ≡ false
  NotVouched framework_comes = Unit

  module _ (e : Env) (device : e.host ≡ false) (auth : e.auth_enabled ≡ true) where
    greet-Down : (t : ℕ) → KeepsDown u (greet e t)
    unfolding greet
    greet-Down t = rw (device, auth) (send_token-Down t e.random)

    connect-Down : (p : Packet) (t : ℕ) → KeepsDown u (handle_connect e p t)
    unfolding handle_connect
    connect-Down p t =
        seq
          (record {
            holds = λ st d. (go_offline-Down (st.transports t).connection_state t).holds st d;
          })
          (seq
            (assign t (parse_banner (c_string p.bytes))
              (λ x h. parse_banner-online (c_string p.bytes) x ∙ h))
            (greet-Down t))

    packet-Down : (p : Packet) (t : ℕ) → KeepsDown u (handle_packet e p t)
    unfolding handle_packet
    packet-Down p t = branch _ (sync-Down e p t) (
        branch _ (connect-Down p t) (
          branch _ (auth-Down e p t) (
            branch _ (online-Down t (quiet (handle_open-Keeps e p t))) (
              branch _
                (online-Down t (
                  bind (quiet (find_local_socket-Keeps p.msg.arg1))
                    (λ o. quiet (handle_okay-Keeps p t o))))
                (branch _
                  (online-Down t (
                    bind (quiet (find_local_socket-Keeps p.msg.arg1))
                      (λ o. quiet (handle_close-Keeps o))))
                  (branch _
                    (online-Down t (
                      bind (quiet (find_local_socket-Keeps p.msg.arg1))
                        (λ o. quiet (handle_write-Keeps p t o))))
                    (done tt)))))))

    -- With authentication enabled on a device, no packet whatever brings a transport online: the
    -- signature of a token is refused each time, and a key is only handed to the framework.
    pub handle_packet-Down :
        (p : Packet) (t : ℕ) (st : Store) → Down u st → Ends (Down u) (handle_packet e p t st)
    handle_packet-Down p t st d = (packet-Down p t).holds st d

    verified-Down : (t : ℕ) → t ≢ u → KeepsDown u (adb_auth_verified e t)
    unfolding adb_auth_verified
    verified-Down t ne = seq {m = handle_online t} (elsewhere-Down t ne) (send_connect-Down e t)

    answer-Down :
        (t : ℕ) (r : Option Bytes) → NotVouched (answers r t) → KeepsDown u (adb_auth_event e t r)
    unfolding adb_auth_event
    answer-Down t none v =
        seq (set_framework-Down absent) (assign t (λ x. record x { auth_wait = false }) (λ x h. h))
    answer-Down t (some r) v = elim (ℕ_discrete t u) [
      | yes same ↦ rw (v same) (done tt)
      | no other ↦ branch (bytes_eq r (codes "OK")) (verified-Down t other) (done tt)
    ]

    event-Down : (v : Event) → NotVouched v → KeepsDown u (handle_event e v)
    unfolding handle_event
    event-Down (arrives p t) v = packet-Down p t
    event-Down (answers r t) v = record {
      holds = λ st d. (branch (st.transports t).auth_wait (answer-Down t r v) (done tt)).holds st d;
    }
    event-Down framework_comes v = unfold adb_auth_listener in set_framework-Down present

    events-Down : (vs : List Event) → All NotVouched vs → KeepsDown u (handle_events e vs)
    unfolding handle_events
    events-Down [] h = done tt
    events-Down (v ∷ vs) h = seq (event-Down v h.0) (events-Down vs h.1)

    -- With authentication enabled on a device, a transport that is not online stays so through any
    -- sequence of packets, answers and connections of the framework, on it and on others, that holds
    -- no "OK" of the framework for it.
    pub handle_events-Down :
        (vs : List Event) (st : Store)
        → All NotVouched vs
        → Down u st
        → Ends (Down u) (handle_events e vs st)
    handle_events-Down vs st h d = (events-Down vs h).holds st d
