-- ===== src/Sockets/Serving/Ready.antt =====
-- `ready` on a socket of the daemon's side, on a well-formed store (src/adbd/sockets.c,
-- src/adbd/jdwp_service.c).
use adbd.Base.{some, ℕ, suc, ◌≡◌, sym, subst, Bool, true, false}
use adbd.Sockets.{Socket, Store, modify}
use adbd.Sockets.Valid.{Near, near_ready, near_of, IsValid, local, jdwp, tracker}
use adbd.Sockets.Altered.{Altered-IsValid, Safe, Safe-then}
use adbd.Sockets.Steps.{set_socket, Safe-step, load_run, modify_run}
use adbd.Sockets.Serving.{update_same, far_close_IsValid, Serves, altered_Serves, touched}
use adbd.Sockets.Serving.Enqueue.{Passed, far_enqueue_Passed}
use adbd.Sockets.Transfer.{
  Answer, the_peer, enqueue, local_ready, text_packet, jdwp_pass, jdwp_ready, tracker_update,
  tracker_ready, ready_with, ready, settled, waiting, gone,
}
use adbd.Packet.{max_payload, Packet}
use adbd.Jdwp.{jdwp_process_list, jdwp_process_list_msg}

jdwp_pass-IsValid :
    (f p q : ℕ) (n : Near) (s : Socket) (st : Store) (pass : Bool)
    → st.sockets p ≡ some (near_of n s (some q))
    → IsValid st
    → Safe (λ _. IsValid) (jdwp_pass (suc (suc f)) p (some q) pass st)
unfolding jdwp_pass the_peer
jdwp_pass-IsValid f p q n s st true e v =
    far_close_IsValid v f p q (record { kind = n; base = s; same = e })
jdwp_pass-IsValid f p q n s st false e v =
    Safe-then (Passed st) (λ _. IsValid) (enqueue (suc (suc f)) q text st) _
      (far_enqueue_Passed (suc (suc f)) p q text st here) next
  where
    text : Packet
    text = text_packet (jdwp_process_list st.processes max_payload)

    here : Serves p q st
    here = record { valid = v; near = record { kind = n; base = s; same = e } }

    next :
        (a : Answer) (st' : Store)
        → Passed st a st'
        → Safe (λ _. IsValid) (modify p (λ s. record s { pass = true }) st')
    next settled st' h = absurd h
    next waiting st' h =
        let k = altered_Serves h here in
        subst (Safe (λ _. IsValid))
          (sym (
            modify_run p (near_of k.near.kind k.near.base (some q)) (λ s. record s { pass = true })
              st' k.near.same))
          (Altered-IsValid
            (touched p q k.near.kind k.near.base (record k.near.base { pass = true }) st'
              k.near.same)
            k.valid)
    next gone st' h = absurd h

tracker_update-IsValid :
    (f p q : ℕ) (n : Near) (s : Socket) (st : Store) (b : Bool)
    → st.sockets p ≡ some (near_of n s (some q))
    → IsValid st
    → Safe (λ _. IsValid) (tracker_update (suc (suc f)) p b st)
unfolding tracker_update the_peer
tracker_update-IsValid f p q n s st false e v = v
tracker_update-IsValid f p q n s st true e v =
    Safe-step (λ _. IsValid) _
      (modify_run p (near_of n s (some q)) (λ s. record s { need_update = false }) st e)
      (Safe-step (λ _. IsValid) _ (load_run p x st1 (update_same st.sockets p (some x)))
        (Safe-then (Passed st1) (λ _. IsValid) (enqueue (suc (suc f)) q text st1) _
          (far_enqueue_Passed (suc (suc f)) p q text st1 here) next))
  where
    x : Socket
    x = near_of n (record s { need_update = false }) (some q)

    st1 : Store
    st1 = set_socket p x st

    text : Packet
    text = text_packet (jdwp_process_list_msg st.processes max_payload)

    here : Serves p q st1
    here =
        altered_Serves (touched p q n s (record s { need_update = false }) st e)
          (record { valid = v; near = record { kind = n; base = s; same = e } })

    next : (a : Answer) (st' : Store) → Passed st1 a st' → IsValid st'
    next settled st' h = absurd h
    next waiting st' h = Altered-IsValid h here.valid
    next gone st' h = absurd h

ready_kind :
    (f p q : ℕ) (n : Near) (s : Socket) (st : Store)
    → st.sockets p ≡ some (near_of n s (some q))
    → IsValid st
    → Safe (λ _. IsValid) (ready_with (near_ready n) (suc (suc f)) p st)
unfolding ready_with local_ready jdwp_ready tracker_ready
ready_kind f p q local s st e v =
    subst (Safe (λ _. IsValid))
      (sym (modify_run p (near_of local s (some q)) (λ s. record s { fde_read = true }) st e))
      (Altered-IsValid (touched p q local s (record s { fde_read = true }) st e) v)
ready_kind f p q jdwp s st e v =
    Safe-step (λ _. IsValid) _ (load_run p (near_of jdwp s (some q)) st e)
      (jdwp_pass-IsValid f p q jdwp s st s.pass e v)
ready_kind f p q tracker s st e v =
    Safe-step (λ _. IsValid) _ (load_run p (near_of tracker s (some q)) st e)
      (tracker_update-IsValid f p q tracker s st s.need_update e v)

pub ready_IsValid :
    (f p q : ℕ) (st : Store) → Serves p q st → Safe (λ _. IsValid) (ready (suc (suc f)) p st)
unfolding ready
ready_IsValid f p q st h =
    Safe-step (λ _. IsValid) _
      (load_run p (near_of h.near.kind h.near.base (some q)) st h.near.same)
      (ready_kind f p q h.near.kind h.near.base st h.near.same h.valid)
