-- ===== src/Session/Pairing.antt =====
-- A local socket and a new remote one become a pair (src/adbd/adb.c), and the end of an OPEN packet.
use adbd.Base.{Option, none, some, ℕ, ◌+◌, refl, sym, ap, subst, ◌∙◌, ◌≢◌, [], ◌∷◌, ◌++◌, arith}
use adbd.Sockets.{Socket, Store, ◌>>=◌, ◌>>◌, update, load, calloc}
use adbd.Sockets.Valid.{near_of, far_of, IsValid}
use adbd.Sockets.Altered.{Altered-IsValid, Safe, Safe-then}
use adbd.Sockets.Joined.{Joined-IsValid, IsJoined}
use adbd.Sockets.Ops.{send_packet, add_transport_disconnect}
use adbd.Sockets.Steps.{update_same, update_other, set_socket, Safe-step, load_run, modify_run}
use adbd.Sockets.Transfer.{ready, create_remote_socket}
use adbd.Sockets.Serving.{unaltered, altered_Serves}
use adbd.Sockets.Serving.Enqueue.{sent_to}
use adbd.Sockets.Serving.Ready.{ready_IsValid}
use adbd.Session.{depth, send_ready, send_close}
use adbd.Session.Handler.{pair_up, opened}
use adbd.Session.Opening.{IsOpened, Created}
use adbd.Packet.{Packet}

module _ (p id t : ℕ) (st st1 : Store) (o : IsOpened st p st1) where
  abbrev q : ℕ
  q = st1.fresh

  ne : p ≢ q
  ne = omega (arith, o.first, o.next)

  abbrev x : Socket
  x = near_of o.kind o.base (some q)

  abbrev y : Socket
  y = far_of id none t

  abbrev z : Socket
  z = far_of id (some p) t

  abbrev first_step : Store
  first_step = record st1 {
    sockets = update st1.sockets q (some y);
    fresh = q + 1;
    disconnects = update st1.disconnects t (st1.disconnects t ++ (q ∷ []));
  }

  abbrev second_step : Store
  second_step = set_socket p x first_step

  abbrev third_step : Store
  third_step = set_socket q z second_step

  joined : IsJoined p q t st third_step
  joined = record {
    first = o.first;
    second = o.next;
    next = omega (arith, o.next);
    near = record {
      kind = o.kind;
      base = o.base;
      same =
          update_other second_step.sockets q (some z) p ne
          ∙ update_same first_step.sockets p (some x);
    };
    far = record { number = id; same = update_same second_step.sockets q (some z) };
    others = λ r np nq.
        update_other second_step.sockets q (some z) r nq
        ∙ update_other first_step.sockets p (some x) r np
        ∙ update_other st1.sockets q (some y) r nq
        ∙ o.others r np;
    in_list = o.in_list;
    in_transport =
        update_same st1.disconnects t (st1.disconnects t ++ (q ∷ []))
        ∙ ap (λ u. u ++ (q ∷ [])) (o.same_transports t);
    other_transports = λ t' ne'.
        update_other st1.disconnects t (st1.disconnects t ++ (q ∷ [])) t' ne'
        ∙ o.same_transports t';
  }

  pub pair_up_Joined : Safe (λ r. IsJoined p r t st) (pair_up p id t st1)
  unfolding pair_up create_remote_socket calloc add_transport_disconnect
  pair_up_Joined =
      Safe-step (λ r. IsJoined p r t st) _
        (modify_run p (near_of o.kind o.base none) (λ s. record s { peer = some q }) first_step
          (update_other st1.sockets q (some y) p ne ∙ o.here))
        (Safe-step (λ r. IsJoined p r t st) _
          (modify_run q y (λ s. record s { peer = some p }) second_step
            (update_other first_step.sockets p (some x) q (λ k. ne (sym k))
              ∙ update_same st1.sockets q (some y)))
          joined)

-- What goes out to the host.
pub sent_IsValid :
    (pkt : Packet) (t : Option ℕ) (st : Store)
    → IsValid st
    → Safe (λ _. IsValid) (send_packet pkt t st)
unfolding send_packet
sent_IsValid pkt none st v = v
sent_IsValid pkt (some t) st v =
    Altered-IsValid (unaltered st (sent_to t pkt st) refl refl refl refl) v

pub opened-IsValid :
    (pkt : Packet) (t : ℕ) (l : Option ℕ) (st st1 : Store)
    → IsValid st
    → Created st l st1
    → Safe (λ _. IsValid) (opened pkt t l st1)
unfolding opened send_close send_ready send_packet
opened-IsValid pkt t none st st1 v o =
    Altered-IsValid (unaltered st1 (sent_to t _ st1) refl refl refl refl) (subst IsValid (sym o) v)
opened-IsValid pkt t (some p) st st1 v o =
    Safe-then (λ r. IsJoined p r t st) (λ _. IsValid) (pair_up p pkt.msg.arg0 t st1) _
      (pair_up_Joined p pkt.msg.arg0 t st st1 o) next
  where
    next :
        (q : ℕ) (st2 : Store)
        → IsJoined p q t st st2
        → Safe
            (λ _. IsValid)
            ((load p >>= λ s. load q >>= λ r. send_ready s.id r.id t >> ready depth p) st2)
    next q st2 j =
        Safe-step (λ _. IsValid) _
          (load_run p (near_of j.near.kind j.near.base (some q)) st2 j.near.same)
          (Safe-step (λ _. IsValid) _ (load_run q (far_of j.far.number (some p) t) st2 j.far.same)
            (ready_IsValid 1 p q (sent_to t _ st2) (
              altered_Serves (unaltered st2 (sent_to t _ st2) refl refl refl refl)
                (record { valid = Joined-IsValid p q t st st2 v j; near = j.near }))))
