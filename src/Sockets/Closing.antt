-- ===== src/Sockets/Closing.antt =====
-- What the closing functions of src/adbd/sockets.c and src/adbd/jdwp_service.c do with a pair of
-- sockets.
use adbd.Base.{◌||◌, List, Bytes}
use adbd.Sockets.{Cmd}
use adbd.Sockets.Valid.{Near, near_close, jdwp, tracker}
use adbd.Sockets.Ops.{
  is_empty, finish_close, local_socket_close_locked, jdwp_close_with, untrack,
  jdwp_tracker_close_with,
}
use adbd.Sockets.Steps.{load_run}
use adbd.Base.{Option, subst}
use adbd.Sockets.Steps.{
  update_same, update_other, update_twice, set_socket, Safe-step, modify_run, remove_run,
}
use adbd.Base.{refl, sym, ◌∙◌, inl, inr, false, if◌then◌else◌}
use adbd.Sockets.Valid.{near_of, local}
use adbd.Sockets.Altered.{Safe-map}
use adbd.Sockets.Ops.{insert_closing, linger}
use adbd.Base.{Bool, none, some, ℕ, suc, ◌≡◌, ◌≢◌, true, [], ◌∷◌, ◌++◌}
use adbd.Sockets.{◌>>◌, Socket, Store, update, load, free, unlink, remove_socket, ok}
use adbd.Sockets.Valid.{far_of}
use adbd.Sockets.Altered.{Safe}
use adbd.Sockets.Cut.{Parted}
use adbd.Sockets.Ops.{
  packet, send_packet, remove_transport_disconnect, exit_if, fdevent_remove, local_socket_destroy,
  drop_peer, peer_id, remote_close_with, close_with, close,
}
use adbd.Packet.{a_clse, seal}

-- The store without the socket `p`, whose peer was taken off before.
pub record IsGone (p : ℕ) (st st' : Store) : Type 0 where
  pub others : (r : ℕ) → r ≢ p → st'.sockets r ≡ st.sockets r
  pub near_gone : Parted (st'.sockets p)
  pub same_fresh : st'.fresh ≡ st.fresh
  pub left_list : st'.socket_list ≡ unlink p st.socket_list
  pub same_transports : (t : ℕ) → st'.disconnects t ≡ st.disconnects t

-- A remote socket without a peer: CLSE goes out, and the object is gone.
pub far_alone :
    (f q id t : ℕ) (st : Store)
    → st.sockets q ≡ some (far_of id none t)
    → close (suc f) q st
      ≡ ok tt (record st {
        sockets = update st.sockets q none;
        sent = st.sent ++ ((t, seal (packet a_clse 0 id)) ∷ []);
        disconnects = update st.disconnects t (unlink q (st.disconnects t));
      })
unfolding close close_with remote_close_with load peer_id drop_peer send_packet
    remove_transport_disconnect free
far_alone f q id t st e = rw (e, e) (rw e refl)

exits :
    (p : ℕ) (st st' : Store) (x : Bool) → IsGone p st st' → Safe (λ _. IsGone p st) (exit_if x st')
unfolding exit_if
exits p st st' true h = tt
exits p st st' false h = h

-- The object leaves its list and is freed.
removed :
    (p : ℕ) (s : Socket) (st : Store) (x : Bool)
    → st.sockets p ≡ some s
    → s.linked ≡ true
    → Safe (λ _. IsGone p st) ((remove_socket p >> (free p >> exit_if x)) st)
unfolding load remove_socket free exit_if
removed p s st x e l =
    rw (e, l)
      (exits p st
        (record st {
          sockets =
              update (update st.sockets p (some (record s { id = 0; linked = false }))) p none;
          socket_list = unlink p st.socket_list;
          closing_list = unlink p st.closing_list;
        })
        x
        (record {
          others = λ r ne.
              update_twice st.sockets p (some (record s { id = 0; linked = false })) none r ne;
          near_gone = inl (
              update_same (update st.sockets p (some (record s { id = 0; linked = false }))) p
                none);
          same_fresh = refl;
          left_list = refl;
          same_transports = λ t. refl;
        }))

pub destroy_Gone :
    (p : ℕ) (s : Socket) (st : Store)
    → st.sockets p ≡ some s
    → s.linked ≡ true
    → Safe (λ _. IsGone p st) (local_socket_destroy p st)
unfolding local_socket_destroy load fdevent_remove
destroy_Gone p s st e l = rw e (go s.active)
  where
    closed_fd : Store
    closed_fd = record st { closed = st.closed ++ (s.fd ∷ []) }

    as_before : (x : Unit {0}) (st' : Store) → IsGone p closed_fd st' → IsGone p st st'
    as_before x st' g = record {
      others = g.others;
      near_gone = g.near_gone;
      same_fresh = g.same_fresh;
      left_list = g.left_list;
      same_transports = g.same_transports;
    }

    go :
        (b : Bool)
        → Safe
            (λ _. IsGone p st)
            ((remove_socket p >> (free p >> exit_if s.exit_on_close)) (if b then closed_fd else st))
    go true =
        Safe-map (λ _. IsGone p closed_fd) (λ _. IsGone p st)
          ((remove_socket p >> (free p >> exit_if s.exit_on_close)) closed_fd)
          (removed p s closed_fd s.exit_on_close e l) as_before
    go false = removed p s st s.exit_on_close e l

-- The close that waits: the object stays, in the other list.
linger_Gone :
    (p : ℕ) (s : Socket) (st : Store)
    → st.sockets p ≡ some (near_of local s none)
    → Safe (λ _. IsGone p st) (linger p st)
unfolding linger insert_closing
linger_Gone p s st e =
    Safe-step (λ _. IsGone p st) _
      (modify_run p (near_of local s none) (λ s. record s { closing = true; fde_read = false }) st
        e)
      (Safe-step (λ _. IsGone p st) _
        (remove_run p x1 (set_socket p x1 st) (update_same st.sockets p (some x1)) refl)
        (subst (Safe (λ _. IsGone p st))
          (sym (
            modify_run p x2 (λ s. record s { linked = true })
              (record (set_socket p x2 (set_socket p x1 st)) {
                socket_list = unlink p st.socket_list;
                closing_list = unlink p st.closing_list ++ (p ∷ []);
              })
              (update_same (update st.sockets p (some x1)) p (some x2))))
          gone))
  where
    x1 : Socket
    x1 = record (near_of local s none) { closing = true; fde_read = false }

    x2 : Socket
    x2 = record x1 { linked = false; id = 0 }

    x3 : Socket
    x3 = record x2 { linked = true }

    two : ℕ → Option Socket
    two = update (update st.sockets p (some x1)) p (some x2)

    gone : IsGone p st (
        set_socket p x3 (record st {
          sockets = two;
          socket_list = unlink p st.socket_list;
          closing_list = unlink p st.closing_list ++ (p ∷ []);
        }))
    gone = record {
      others = λ r ne.
          update_other two p (some x3) r ne ∙ update_twice st.sockets p (some x1) (some x2) r ne;
      near_gone = inr (x3, update_same two p (some x3));
      same_fresh = refl;
      left_list = refl;
      same_transports = λ t. refl;
    }

pub after_set :
    (p : ℕ) (x : Socket) (st st' : Store) → IsGone p (set_socket p x st) st' → IsGone p st st'
after_set p x st st' g = record {
  others = λ r ne. g.others r ne ∙ update_other st.sockets p (some x) r ne;
  near_gone = g.near_gone;
  same_fresh = g.same_fresh;
  left_list = g.left_list;
  same_transports = g.same_transports;
}

-- The end of the close of a local socket, with its queue empty or not.
pub finish_Gone :
    (p : ℕ) (s : Socket) (st : Store)
    → st.sockets p ≡ some (near_of local s none)
    → Safe (λ _. IsGone p st) (finish_close p (near_of local s none) st)
unfolding finish_close
finish_Gone p s st e = go s.queue
  where
    go :
        (qs : List Bytes)
        → Safe
            (λ _. IsGone p st)
            ((if false || is_empty qs then local_socket_destroy p else linger p) st)
    go [] = destroy_Gone p (near_of local s none) st e refl
    go (q ∷ qs) = linger_Gone p s st e

near_alone_with :
    (n : Near) (rec : ℕ → Cmd (Unit {0})) (p : ℕ) (s : Socket) (st : Store)
    → st.sockets p ≡ some (near_of n s none)
    → Safe (λ _. IsGone p st) (close_with (near_close n) rec p st)
unfolding close_with local_socket_close_locked jdwp_close_with jdwp_tracker_close_with drop_peer
    untrack free
near_alone_with local rec p s st e =
    Safe-step (λ _. IsGone p st) _ (load_run p x st e)
      (Safe-step (λ _. IsGone p st) _ (modify_run p x (λ s. record s { peer = none }) st e)
        (Safe-step (λ _. IsGone p st) _
          (load_run p x (set_socket p x st) (update_same st.sockets p (some x)))
          (Safe-map (λ _. IsGone p (set_socket p x st)) (λ _. IsGone p st)
            (finish_close p x (set_socket p x st))
            (finish_Gone p s (set_socket p x st) (update_same st.sockets p (some x)))
            (λ _ st'. after_set p x st st'))))
  where
    x : Socket
    x = near_of local s none
near_alone_with jdwp rec p s st e =
    Safe-step (λ _. IsGone p st) _ (load_run p x st e)
      (Safe-step (λ _. IsGone p st) _ (remove_run p x st e refl)
        (record {
          others = λ r ne. update_twice st.sockets p (some y) none r ne;
          near_gone = inl (update_same (update st.sockets p (some y)) p none);
          same_fresh = refl;
          left_list = refl;
          same_transports = λ t. refl;
        }))
  where
    x : Socket
    x = near_of jdwp s none

    y : Socket
    y = record x { linked = false; id = 0 }
near_alone_with tracker rec p s st e =
    Safe-step (λ _. IsGone p st) _ (load_run p x st e)
      (Safe-step (λ _. IsGone p st) _ (remove_run p x st e refl)
        (record {
          others = λ r ne. update_twice st.sockets p (some y) none r ne;
          near_gone = inl (update_same (update st.sockets p (some y)) p none);
          same_fresh = refl;
          left_list = refl;
          same_transports = λ t. refl;
        }))
  where
    x : Socket
    x = near_of tracker s none

    y : Socket
    y = record x { linked = false; id = 0 }

-- The close of a socket of the daemon's side without a peer.
pub near_alone :
    (f : ℕ) (n : Near) (p : ℕ) (s : Socket) (st : Store)
    → st.sockets p ≡ some (near_of n s none)
    → Safe (λ _. IsGone p st) (close (suc f) p st)
unfolding close
near_alone f n p s st e =
    Safe-step (λ _. IsGone p st) _ (load_run p (near_of n s none) st e)
      (near_alone_with n (close f) p s st e)
