-- ===== src/Sockets/Pairs.antt =====
-- The close of either end of a pair of sockets (src/adbd/sockets.c) takes the pair apart.
use adbd.Base.{
  none, some, ℕ, suc, ◌≡◌, refl, sym, ap, subst, ◌∙◌, ◌≢◌, inl, false, List, [], ◌∷◌, ◌++◌,
}
use adbd.Sockets.{load, Socket, Store, update, free, unlink, ok}
use adbd.Sockets.Valid.{Near, near_close, near_of, far_of, local, jdwp, tracker}
use adbd.Sockets.Altered.{Safe, Safe-then, Safe-map}
use adbd.Sockets.Cut.{Parted, IsCut}
use adbd.Sockets.Ops.{
  packet, send_packet, remove_transport_disconnect, drop_peer, finish_close,
  local_socket_close_locked, peer_id, remote_close_with, jdwp_close_with, untrack,
  jdwp_tracker_close_with, close_with, close,
}
use adbd.Sockets.Steps.{
  update_other, update_same, update_twice, set_socket, Safe-step, load_run, modify_run, remove_run,
}
use adbd.Sockets.Closing.{IsGone, far_alone, after_set, finish_Gone, near_alone}
use adbd.Packet.{a_clse, Packet, seal}

-- `peer->peer=0` and the close of a remote socket.
abbrev parted : ℕ → ℕ → ℕ → Store → Store
parted q id t st = record st {
  sockets = update (update st.sockets q (some (far_of id none t))) q none;
  sent = st.sent ++ ((t, seal (packet a_clse 0 id)) ∷ []);
  disconnects = update st.disconnects t (unlink q (st.disconnects t));
}

drop_far_run :
    (f p q id t : ℕ) (st : Store)
    → st.sockets q ≡ some (far_of id (some p) t)
    → drop_peer (close (suc f)) (some q) st ≡ ok tt (parted q id t st)
unfolding drop_peer
drop_far_run f p q id t st e =
    rw (modify_run q (far_of id (some p) t) (λ s. record s { peer = none }) st e) (
      far_alone f q id t (set_socket q (far_of id none t) st)
        (update_same st.sockets q (some (far_of id none t))))

IsCut-of_gone :
    (p q id t : ℕ) (st st' : Store) → p ≢ q → IsGone p (parted q id t st) st' → IsCut p q t st st'
IsCut-of_gone p q id t st st' ne g = record {
  others = λ r np nq. g.others r np ∙ update_twice st.sockets q (some (far_of id none t)) none r nq;
  far_gone =
      g.others q (λ e. ne (sym e))
      ∙ update_same (update st.sockets q (some (far_of id none t))) q none;
  near_gone = g.near_gone;
  same_fresh = g.same_fresh;
  left_list = g.left_list;
  left_transport = g.same_transports t ∙ update_same st.disconnects t (unlink q (st.disconnects t));
  other_transports = λ t' ne'.
      g.same_transports t' ∙ update_other st.disconnects t (unlink q (st.disconnects t)) t' ne';
}

-- What is left of a store when first the near end and then the remote one has gone.
abbrev pub far_ended : ℕ → ℕ → List (ℕ × Packet) → Store → Store
far_ended q t sent st = record st {
  sockets = update st.sockets q none;
  sent = sent;
  disconnects = update st.disconnects t (unlink q (st.disconnects t));
}

pub IsCut-of_far :
    (p q t : ℕ) (x : Socket) (st st' : Store) (sent : List (ℕ × Packet))
    → p ≢ q
    → IsGone p (set_socket p x st) st'
    → IsCut p q t st (far_ended q t sent st')
IsCut-of_far p q t x st st' sent ne g = record {
  others = λ r np nq.
      update_other st'.sockets q none r nq
      ∙ g.others r np
      ∙ update_other st.sockets p (some x) r np;
  far_gone = update_same st'.sockets q none;
  near_gone = subst Parted (sym (update_other st'.sockets q none p ne)) g.near_gone;
  same_fresh = g.same_fresh;
  left_list = g.left_list;
  left_transport =
      update_same st'.disconnects t (unlink q (st'.disconnects t))
      ∙ ap (unlink q) (g.same_transports t);
  other_transports = λ t' ne'.
      update_other st'.disconnects t (unlink q (st'.disconnects t)) t' ne' ∙ g.same_transports t';
}

module _ (f p q id t : ℕ) (s : Socket) (st : Store) (ne : p ≢ q)
    (far : st.sockets q ≡ some (far_of id (some p) t)) where
  -- The other end is untouched by what happens to one.
  still_near : (x : Socket) → st.sockets p ≡ some x → (parted q id t st).sockets p ≡ some x
  still_near x e = update_twice st.sockets q (some (far_of id none t)) none p ne ∙ e

  pub near_pair_with :
      (n : Near)
      → st.sockets p ≡ some (near_of n s (some q))
      → Safe (λ _. IsCut p q t st) (close_with (near_close n) (close (suc f)) p st)
  unfolding close_with local_socket_close_locked jdwp_close_with jdwp_tracker_close_with untrack
      free
  near_pair_with local e =
      Safe-step (λ _. IsCut p q t st) _ (load_run p x st e)
        (Safe-step (λ _. IsCut p q t st) _ (drop_far_run f p q id t st far)
          (Safe-step (λ _. IsCut p q t st) _
            (modify_run p x (λ s. record s { peer = none }) gone (still_near x e))
            (Safe-step (λ _. IsCut p q t st) _
              (load_run p y (set_socket p y gone) (update_same gone.sockets p (some y)))
              (Safe-map (λ _. IsGone p (set_socket p y gone)) (λ _. IsCut p q t st)
                (finish_close p y (set_socket p y gone))
                (finish_Gone p s (set_socket p y gone) (update_same gone.sockets p (some y)))
                (λ _ st' g. IsCut-of_gone p q id t st st' ne (after_set p y gone st' g))))))
    where
      x : Socket
      x = near_of local s (some q)

      y : Socket
      y = near_of local s none

      gone : Store
      gone = parted q id t st
  near_pair_with jdwp e =
      Safe-step (λ _. IsCut p q t st) _ (load_run p x st e)
        (Safe-step (λ _. IsCut p q t st) _ (remove_run p x st e refl)
          (Safe-step (λ _. IsCut p q t st) _
            (drop_far_run f p q id t off
              (update_other st.sockets p (some y) q (λ k. ne (sym k)) ∙ far))
            (record {
              others = λ r np nq.
                  update_other gone.sockets p none r np
                  ∙ update_twice off.sockets q (some (far_of id none t)) none r nq
                  ∙ update_other st.sockets p (some y) r np;
              far_gone =
                  update_other gone.sockets p none q (λ k. ne (sym k))
                  ∙ update_same (update off.sockets q (some (far_of id none t))) q none;
              near_gone = inl (update_same gone.sockets p none);
              same_fresh = refl;
              left_list = refl;
              left_transport = update_same st.disconnects t (unlink q (st.disconnects t));
              other_transports =
                  λ t' ne'. update_other st.disconnects t (unlink q (st.disconnects t)) t' ne';
            })))
    where
      x : Socket
      x = near_of jdwp s (some q)

      y : Socket
      y = record x { linked = false; id = 0 }

      off : Store
      off = record (set_socket p y st) {
        socket_list = unlink p st.socket_list;
        closing_list = unlink p st.closing_list;
      }

      gone : Store
      gone = parted q id t off
  near_pair_with tracker e =
      Safe-step (λ _. IsCut p q t st) _ (load_run p x st e)
        (Safe-step (λ _. IsCut p q t st) _ (drop_far_run f p q id t st far)
          (Safe-step (λ _. IsCut p q t st) _ (remove_run p x gone (still_near x e) refl)
            (IsCut-of_gone p q id t st _ ne (record {
              others = λ r np. update_twice gone.sockets p (some y) none r np;
              near_gone = inl (update_same (update gone.sockets p (some y)) p none);
              same_fresh = refl;
              left_list = refl;
              same_transports = λ t'. refl;
            }))))
    where
      x : Socket
      x = near_of tracker s (some q)

      y : Socket
      y = record x { linked = false; id = 0 }

      gone : Store
      gone = parted q id t st

  -- The close of the end on the daemon's side.
  pub near_pair :
      (n : Near)
      → st.sockets p ≡ some (near_of n s (some q))
      → Safe (λ _. IsCut p q t st) (close (suc (suc f)) p st)
  unfolding close
  near_pair n e =
      Safe-step (λ _. IsCut p q t st) _ (load_run p (near_of n s (some q)) st e)
        (near_pair_with n e)

  -- The end on the daemon's side, dropped by the remote one.
  pub drop_near :
      (n : Near)
      → st.sockets p ≡ some (near_of n s (some q))
      → Safe
          (λ _. IsGone p (set_socket p (near_of n s none) st))
          (drop_peer (close (suc f)) (some p) st)
  unfolding drop_peer
  drop_near n e =
      Safe-step (λ _. IsGone p (set_socket p (near_of n s none) st)) _
        (modify_run p (near_of n s (some q)) (λ s. record s { peer = none }) st e)
        (near_alone f n p s (set_socket p (near_of n s none) st)
          (update_same st.sockets p (some (near_of n s none))))

  -- The close of the remote end.
  pub far_pair :
      (n : Near)
      → st.sockets p ≡ some (near_of n s (some q))
      → Safe (λ _. IsCut p q t st) (close (suc (suc f)) q st)
  unfolding close close_with remote_close_with peer_id send_packet remove_transport_disconnect free
  far_pair n e =
      Safe-step (λ _. IsCut p q t st) _ (load_run q z st far)
        (Safe-step (λ _. IsCut p q t st) _ (load_run q z st far)
          (Safe-step (λ _. IsCut p q t st) _ peer_id_run
            (Safe-then (λ _. IsGone p (set_socket p y st)) (λ _. IsCut p q t st)
              (drop_peer (close (suc f)) (some p) st) _ (drop_near n e)
              (λ _ st' g.
                Safe-step (λ _. IsCut p q t st) _ (load_run q z st' (still_far st' g))
                  (IsCut-of_far p q t y st st' _ ne g)))))
    where
      y : Socket
      y = near_of n s none

      z : Socket
      z = far_of id (some p) t

      peer_id_run : peer_id (some p) st ≡ ok s.id st
      peer_id_run = unfold load in rw e refl

      still_far : (st' : Store) → IsGone p (set_socket p y st) st' → st'.sockets q ≡ some z
      still_far st' g =
          g.others q (λ k. ne (sym k))
          ∙ update_other st.sockets p (some y) q (λ k. ne (sym k))
          ∙ far
