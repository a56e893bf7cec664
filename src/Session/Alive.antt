-- ===== src/Session/Alive.antt =====
-- Every case of `handle_packet` of src/adbd/adb.c keeps the store of sockets well-formed.
use adbd.Session.{is_absent, confirm_key_with}
use adbd.Sockets.{present}
use adbd.Base.{◌++◌, leb}
use adbd.Session.{watched, watch_framework, Framework, last_key_byte}
use adbd.Packet.{a_sync, a_cnxn, a_open, a_okay, a_clse, a_wrte, a_auth}
use adbd.Sockets.Serving.{apart_ends, its-IsNear}
use adbd.Base.{
  In, Distinct, Option, none, some, ℕ, ◌+◌, ◌%◌, ◌^◌, ◌≡◌, refl, sym, subst, ◌≢◌, inl, inr, Bool,
  true, false, not, ◌||◌, List, [], ◌∷◌, Bytes, codes, ltb, ◌==◌, length,
}
use adbd.Sockets.{absent, Socket, Store, Cmd, free, unlink}
use adbd.Sockets.Valid.{Near, near_of, far_of, IsFar, IsValid, unlink-In}
use adbd.Sockets.Altered.{Safe, Safe-then, Safe-map}
use adbd.Sockets.Cut.{Cut-IsValid, IsCut}
use adbd.Sockets.Ops.{remove_transport_disconnect, drop_peer, close}
use adbd.Sockets.Steps.{set_socket, Safe-step, load_run}
use adbd.Sockets.Closing.{IsGone}
use adbd.Sockets.Pairs.{drop_near, IsCut-of_far}
use adbd.Session.{
  Env, depth, handle_online, remote_socket_disconnect, run_disconnects, handle_offline,
  connect_text, send_connect, send_token, adb_auth_verified, adb_auth_verify, adb_auth_confirm_key,
  adb_auth_event,
}
use adbd.Session.Handler.{
  handle_sync, go_offline, greet, handle_connect, handle_signature, handle_auth, when_online,
  handle_packet,
}
use adbd.Session.Safety.{
  set_framework-Preserves, Preserves, Preserves-seq, Preserves-pure, Preserves-if,
  send_packet-Preserves, with_transport-Preserves, handle_okay-Preserves, handle_close-Preserves,
  handle_write-Preserves, handle_open-Preserves,
}
use adbd.Packet.{max_payload, Packet}
use adbd.Transport.{ConnectionState, is_offline, c_string, bytes_eq, parse_banner, cs_offline}

-- `remote_socket_disconnect` takes its pair apart.
disconnect_Cut :
    (p q id t : ℕ) (n : Near) (s : Socket) (st : Store)
    → p ≢ q
    → st.sockets p ≡ some (near_of n s (some q))
    → st.sockets q ≡ some (far_of id (some p) t)
    → Safe (λ _. IsCut p q t st) (remote_socket_disconnect q st)
unfolding remote_socket_disconnect remove_transport_disconnect free
disconnect_Cut p q id t n s st ne near far =
    Safe-step (λ _. IsCut p q t st) _ (load_run q (far_of id (some p) t) st far)
      (Safe-then (λ _. IsGone p (set_socket p (near_of n s none) st)) (λ _. IsCut p q t st)
        (drop_peer (close depth) (some p) st) _ (drop_near 2 p q id t s st ne far n near)
        (λ _ st' g. IsCut-of_far p q t (near_of n s none) st st' st'.sent ne g))

disconnect_IsValid :
    (l q t : ℕ) (st : Store)
    → IsValid st
    → IsFar l t (st.sockets q)
    → Safe
        (λ _ st'. IsValid st' × (st'.disconnects t ≡ unlink q (st.disconnects t)))
        (remote_socket_disconnect q st)
disconnect_IsValid l q t st v f =
    let n = its-IsNear v l q t f in
    Safe-map (λ _. IsCut l q t st)
      (λ _ st'. IsValid st' × (st'.disconnects t ≡ unlink q (st.disconnects t)))
      (remote_socket_disconnect q st)
      (disconnect_Cut l q f.number t n.kind n.base st (apart_ends v l q t n f) n.same f.same)
      (λ _ st' cut. (Cut-IsValid l q t st st' v n f cut, cut.left_transport))

run_disconnects-IsValid :
    (t : ℕ) (ps : List ℕ) (st : Store)
    → Distinct ps
    → ((r : ℕ) → In r ps → In r (st.disconnects t))
    → IsValid st
    → Safe (λ _. IsValid) (run_disconnects ps st)
unfolding run_disconnects
run_disconnects-IsValid t [] st d sub v = v
run_disconnects-IsValid t (q ∷ ps) st (new, d) sub v =
    let (l, f) = v.joined t q (sub q (inl refl)) in
    Safe-then (λ _ st'. IsValid st' × (st'.disconnects t ≡ unlink q (st.disconnects t)))
      (λ _. IsValid) (remote_socket_disconnect q st) _ (disconnect_IsValid l q t st v f)
      (λ _ st' (v', left).
        run_disconnects-IsValid t ps st' d
          (λ r i. subst (In r) (sym left) (
            unlink-In r q (st.disconnects t) (λ e. new (subst (λ k. In k ps) e i)) (sub r (inr i))))
          v')

handle_offline-Preserves : (t : ℕ) → Preserves (handle_offline t)
unfolding handle_offline
handle_offline-Preserves t =
    Preserves-seq (with_transport-Preserves t (λ x. record x { online = false })) (record {
      runs = λ st v. run_disconnects-IsValid t (st.disconnects t) st (v.joined_once t) (λ r i. i) v;
    })

-- The device's texts leave room for their zero byte in a packet.
abbrev pub Fits : Env → Type 0
Fits e = ltb (length (connect_text e)) max_payload ≡ true

module _ (e : Env) (fits : Fits e) (t : ℕ) where
  send_connect-Preserves : Preserves (send_connect e t)
  unfolding send_connect
  send_connect-Preserves = rw fits (send_packet-Preserves _ (some t))

  send_token-Preserves : (o : Option Bytes) → Preserves (send_token t o)
  unfolding send_token
  send_token-Preserves none = Preserves-pure tt
  send_token-Preserves (some token) =
      Preserves-seq (with_transport-Preserves t (λ x. record x { token = token }))
        (send_packet-Preserves _ (some t))

  verified-Preserves : Preserves (adb_auth_verified e t)
  unfolding adb_auth_verified handle_online
  verified-Preserves =
      Preserves-seq (with_transport-Preserves t (λ x. record x { online = true }))
        send_connect-Preserves

  handle_sync-Preserves : (p : Packet) → Preserves (handle_sync e p t)
  unfolding handle_sync
  handle_sync-Preserves p =
      Preserves-if (not (p.msg.arg0 == 0))
        (Preserves-seq (send_packet-Preserves p (some t))
          (Preserves-if e.host send_connect-Preserves (Preserves-pure tt)))
        (Preserves-seq
          (with_transport-Preserves t (λ x. record x { connection_state = cs_offline }))
          (Preserves-seq (handle_offline-Preserves t) (send_packet-Preserves p (some t))))

  go_offline-Preserves : (state : ConnectionState) → Preserves (go_offline state t)
  unfolding go_offline
  go_offline-Preserves state = Preserves-if (is_offline state) (Preserves-pure tt) (
      Preserves-seq (with_transport-Preserves t (λ x. record x { connection_state = cs_offline }))
        (handle_offline-Preserves t))

  greet-Preserves : Preserves (greet e t)
  unfolding greet handle_online
  greet-Preserves =
      Preserves-if (e.host || not e.auth_enabled)
        (Preserves-seq (with_transport-Preserves t (λ x. record x { online = true }))
          (Preserves-if e.host (Preserves-pure tt) send_connect-Preserves))
        (send_token-Preserves e.random)

  handle_connect-Preserves : (p : Packet) → Preserves (handle_connect e p t)
  unfolding handle_connect
  handle_connect-Preserves p =
      Preserves-seq
        (record { runs = λ st. (go_offline-Preserves (st.transports t).connection_state).runs st })
        (Preserves-seq (with_transport-Preserves t (parse_banner (c_string p.bytes)))
          greet-Preserves)

  handle_signature-Preserves : (p : Packet) (b : Bool) → Preserves (handle_signature e p t b)
  unfolding handle_signature
  handle_signature-Preserves p true =
      Preserves-seq verified-Preserves
        (with_transport-Preserves t (λ x. record x { failed_auth_attempts = 0 }))
  handle_signature-Preserves p false =
      Preserves-seq
        (with_transport-Preserves t
          (λ x. record x { failed_auth_attempts = (x.failed_auth_attempts + 1) % 2 ^ 32 }))
        (send_token-Preserves e.random)

  watch_framework-Preserves : (f : Framework) → Preserves (watch_framework t f)
  unfolding watch_framework
  watch_framework-Preserves absent = Preserves-pure tt
  watch_framework-Preserves present =
      Preserves-seq (set_framework-Preserves watched)
        (with_transport-Preserves t (λ x. record x { auth_wait = true }))
  watch_framework-Preserves watched = record { runs = λ st v. tt }

  confirm_with-Preserves : (p : Packet) (f : Framework) → Preserves (confirm_key_with e p t f)
  unfolding confirm_key_with
  confirm_with-Preserves p f = Preserves-if (is_absent f) (Preserves-pure tt) (
      Preserves-if (not (last_key_byte p == 0)) (Preserves-pure tt) (
        Preserves-if (leb max_payload (2 + length (c_string p.bytes))) (Preserves-pure tt) (
          Preserves-if (not (e.key_written (codes "PK" ++ c_string p.bytes))) (Preserves-pure tt)
            (watch_framework-Preserves f))))

  confirm_key-Preserves : (p : Packet) → Preserves (adb_auth_confirm_key e p t)
  unfolding adb_auth_confirm_key
  confirm_key-Preserves p = record { runs = λ st. (confirm_with-Preserves p st.framework).runs st }

  handle_auth-Preserves : (p : Packet) → Preserves (handle_auth e p t)
  unfolding handle_auth
  handle_auth-Preserves p = Preserves-if (p.msg.arg0 == 1) (Preserves-pure tt) (
      Preserves-if (p.msg.arg0 == 2)
        (record {
          runs = λ st.
              (handle_signature-Preserves p (adb_auth_verify (st.transports t).token p.bytes)).runs
                st;
        })
        (Preserves-if (p.msg.arg0 == 3) (confirm_key-Preserves p) (Preserves-pure tt)))

  pub auth_event-Preserves : (o : Option Bytes) → Preserves (adb_auth_event e t o)
  unfolding adb_auth_event
  auth_event-Preserves none =
      Preserves-seq (set_framework-Preserves absent)
        (with_transport-Preserves t (λ x. record x { auth_wait = false }))
  auth_event-Preserves (some response) =
      Preserves-if (bytes_eq response (codes "OK")) verified-Preserves (Preserves-pure tt)

  when_online-Preserves : {m : Cmd (Unit {0})} → Preserves m → Preserves (when_online t m)
  when_online-Preserves h = record {
    runs = λ st. (Preserves-if (st.transports t).online h (Preserves-pure tt)).runs st;
  }

  pub handle_packet-Preserves : (p : Packet) → Preserves (handle_packet e p t)
  unfolding handle_packet
  handle_packet-Preserves p = Preserves-if (p.msg.command == a_sync) (handle_sync-Preserves p) (
      Preserves-if (p.msg.command == a_cnxn) (handle_connect-Preserves p) (
        Preserves-if (p.msg.command == a_auth) (handle_auth-Preserves p) (
          Preserves-if (p.msg.command == a_open)
            (when_online-Preserves (handle_open-Preserves e p t))
            (Preserves-if (p.msg.command == a_okay)
              (when_online-Preserves (handle_okay-Preserves p t))
              (Preserves-if (p.msg.command == a_clse)
                (when_online-Preserves (handle_close-Preserves p))
                (Preserves-if (p.msg.command == a_wrte)
                  (when_online-Preserves (handle_write-Preserves p t)) (Preserves-pure tt)))))))
