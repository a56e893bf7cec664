-- ===== src/Sockets/Serving/Handler.antt =====
-- `local_socket_event_func` of src/adbd/sockets.c on a well-formed store.
use adbd.Base.{
  some, ℕ, suc, ◌≡◌, refl, sym, ap, subst, ◌∙◌, inl, inr, Bool, true, false, List, [], ℕ_discrete,
  Bytes,
}
use adbd.Sockets.{Socket, Store, update, modify, ok}
use adbd.Sockets.Valid.{Near, near_of, lingering_of, IsNear, IsValid}
use adbd.Sockets.Altered.{Altered-IsValid, Safe, Safe-then, Alike, IsAltered, both_lingering}
use adbd.Sockets.Ops.{close}
use adbd.Sockets.Steps.{update_other, update_same, set_socket, Safe-step, load_run, modify_run}
use adbd.Sockets.Serving.{near_close_IsValid, Serves, unaltered, altered_Serves, touched}
use adbd.Sockets.Serving.Enqueue.{far_ready_Altered}
use adbd.Sockets.Lingering.{lingering_close_IsValid}
use adbd.Sockets.Transfer.{set_sink, the_peer, ready}
use adbd.Sockets.Events.{
  Drain, drain, queue_empty, after_drain, write_event, drained, stalled, perished, undrained,
}
use adbd.Sockets.Queue.{Drains, drain-Drains}
use adbd.Io.{Sink}

-- A socket that the event loop may call the handler for.
pub data IsOwner (p : ℕ) (st : Store) : Type 0 where
  owns : (q : ℕ) → IsNear q (st.sockets p) → IsOwner p st
  drains : (s : Socket) → st.sockets p ≡ some (lingering_of s) → IsOwner p st

-- An assignment to a field of a socket with its peer.
pub modify-Serves :
    (p q : ℕ) (f g : Socket → Socket) (st : Store)
    → ((n : Near) (s : Socket) → f (near_of n s (some q)) ≡ near_of n (g s) (some q))
    → Serves p q st
    → Safe (λ _. Serves p q) (modify p f st)
modify-Serves p q f g st fg h =
    subst (Safe (λ _. Serves p q))
      (sym (
        modify_run p (near_of h.near.kind h.near.base (some q)) f st h.near.same
        ∙ ap (λ x. ok tt (set_socket p x st)) (fg h.near.kind h.near.base)))
      (altered_Serves (touched p q h.near.kind h.near.base (g h.near.base) st h.near.same) h)

-- An assignment to a field of a socket that drains.
pub modify_lingering :
    (p : ℕ) (s : Socket) (f g : Socket → Socket) (st : Store)
    → ((s : Socket) → f (lingering_of s) ≡ lingering_of (g s))
    → IsValid st
    → st.sockets p ≡ some (lingering_of s)
    → Safe (λ _ st'. IsValid st' × (st'.sockets p ≡ some (lingering_of (g s)))) (modify p f st)
modify_lingering p s f g st fg v e =
    subst (Safe (λ _ st'. IsValid st' × (st'.sockets p ≡ some (lingering_of (g s)))))
      (sym (modify_run p (lingering_of s) f st e ∙ ap (λ x. ok tt (set_socket p x st)) (fg s)))
      (Altered-IsValid altered v, update_same st.sockets p (some x))
  where
    x : Socket
    x = lingering_of (g s)

    altered : IsAltered st (set_socket p x st)
    altered = record {
      each = λ r. elim (ℕ_discrete r p) [
        | yes k ↦ inr (
            subst (λ j. Alike (st.sockets j) (update st.sockets p (some x) j)) (sym k)
              (both_lingering s (g s) e (update_same st.sockets p (some x))))
        | no k ↦ inl (update_other st.sockets p (some x) r k)
      ];
      same_fresh = refl;
      same_list = refl;
      same_transports = λ t. refl;
    }

-- What the write part leaves: a socket that is served where the handler goes on, or a well-formed
-- store.
abbrev pub Written : ℕ → Bool → Store → Type 0
Written p true st = (q : ℕ) × Serves p q st
Written p false st = IsValid st

with_sink : ℕ → Sink → Store → Store
with_sink fd k st = record st { sinks = update st.sinks fd k }

module _ (f p q : ℕ) where
  -- An empty queue of a socket with its peer: the peer is told that it may send.
  queue_empty-Written :
      (s : Socket) (st : Store)
      → s.closing ≡ false
      → s.peer ≡ some q
      → Serves p q st
      → Safe (Written p) (queue_empty (suc (suc f)) p s st)
  unfolding queue_empty the_peer
  queue_empty-Written s st c k h =
      rw (c, k)
        (Safe-then (λ _. Serves p q) (Written p) (modify p (λ s. record s { fde_write = false }) st)
          _
          (modify-Serves p q (λ s. record s { fde_write = false })
            (λ s. record s { fde_write = false }) st (λ n s. refl) h)
          (λ _ st1 h1.
            Safe-then (λ _. IsAltered st1) (Written p) (ready (suc (suc f)) q st1) _
              (far_ready_Altered (suc (suc f)) p q st1 h1) (λ _ st2 a. (q, altered_Serves a h1))))

  set_queue :
      (qs : List Bytes) (st : Store)
      → Serves p q st
      → Safe (λ _. Serves p q) (modify p (λ s. record s { queue = qs }) st)
  set_queue qs st h =
      modify-Serves p q (λ s. record s { queue = qs }) (λ s. record s { queue = qs }) st
        (λ n s. refl) h

  after_drain-Written :
      (s : Socket) (d : Drain) (out : Bytes) (qs : List Bytes) (st : Store)
      → s.closing ≡ false
      → s.peer ≡ some q
      → Drains out qs d
      → Serves p q st
      → Safe (Written p) (after_drain (suc (suc f)) p s d st)
  unfolding after_drain set_sink with_sink
  after_drain-Written s (drained k) out qs st c e d h =
      Safe-then (λ _. Serves p q) (Written p) (modify p _ (with_sink s.fd k st)) _
        (set_queue [] (with_sink s.fd k st) (altered_Serves (unaltered st _ refl refl refl refl) h))
        (λ _ st1 h1. queue_empty-Written s st1 c e h1)
  after_drain-Written s (stalled left k) out qs st c e d h =
      Safe-then (λ _. Serves p q) (Written p) (modify p _ (with_sink s.fd k st)) _
        (set_queue left (with_sink s.fd k st)
          (altered_Serves (unaltered st _ refl refl refl refl) h))
        (λ _ st1 h1. h1.valid)
  after_drain-Written s (perished left k) out qs st c e d h =
      Safe-then (λ _. Serves p q) (Written p) (modify p _ (with_sink s.fd k st)) _
        (set_queue left (with_sink s.fd k st)
          (altered_Serves (unaltered st _ refl refl refl refl) h))
        (λ _ st1 h1.
          Safe-then (λ _. IsValid) (Written p) (close (suc (suc f)) p st1) _
            (near_close_IsValid h1.valid f p q h1.near) (λ _ st2 v. v))
  after_drain-Written s undrained out qs st c e d h = d

  pub write_event-Written :
      (st : Store) → Serves p q st → Safe (Written p) (write_event (suc (suc f)) p st)
  unfolding write_event
  write_event-Written st h = Safe-step (Written p) _ (load_run p s st h.near.same) (
      after_drain-Written s (drain s.queue (st.sinks s.fd)) (st.sinks s.fd).written s.queue st refl
        refl (drain-Drains s.queue (st.sinks s.fd)) h)
    where
      s : Socket
      s = near_of h.near.kind h.near.base (some q)

-- A socket that drains: with the queue empty it is closed for good.
pub drain_lingering :
    (f p : ℕ) (s : Socket) (d : Drain) (out : Bytes) (qs : List Bytes) (st : Store)
    → Drains out qs d
    → IsValid st
    → st.sockets p ≡ some (lingering_of s)
    → Safe
        (λ go_on st'. (go_on ≡ false) × IsValid st')
        (after_drain (suc f) p (lingering_of s) d st)
unfolding after_drain set_sink queue_empty
drain_lingering f p s d out qs st dr v e = go d dr
  where
    R : Bool → Store → Type 0
    R go_on st' = (go_on ≡ false) × IsValid st'

    closed :
        (st1 : Store) (x : Socket)
        → IsValid st1
        → st1.sockets p ≡ some (lingering_of x)
        → Safe (λ _. IsValid) (close (suc f) p st1)
    closed st1 x v1 e1 = lingering_close_IsValid f p x st1 v1 e1

    put : (k : Sink) → IsValid (record st { sinks = update st.sinks s.fd k })
    put k = Altered-IsValid (unaltered st _ refl refl refl refl) v

    L : List Bytes → Unit {0} → Store → Type 0
    L left _ st1 = IsValid st1 × (st1.sockets p ≡ some (lingering_of (record s { queue = left })))

    set :
        (left : List Bytes) (k : Sink)
        → Safe (L left) (
            modify p
              (λ s. record s { queue = left })
              (record st { sinks = update st.sinks s.fd k }))
    set left k =
        modify_lingering p s (λ s. record s { queue = left }) (λ s. record s { queue = left })
          (record st { sinks = update st.sinks s.fd k }) (λ s. refl) (put k) e

    go : (d : Drain) → Drains out qs d → Safe R (after_drain (suc f) p (lingering_of s) d st)
    go (drained k) h =
        Safe-then (L []) R (modify p _ (record st { sinks = update st.sinks s.fd k })) _ (set [] k)
          (λ _ st1 (v1, e1).
            Safe-then (λ _. IsValid) R (close (suc f) p st1) _
              (closed st1 (record s { queue = [] }) v1 e1) (λ _ st2 v2. (refl, v2)))
    go (stalled left k) h =
        Safe-then (L left) R (modify p _ (record st { sinks = update st.sinks s.fd k })) _
          (set left k) (λ _ st1 (v1, e1). (refl, v1))
    go (perished left k) h =
        Safe-then (L left) R (modify p _ (record st { sinks = update st.sinks s.fd k })) _
          (set left k)
          (λ _ st1 (v1, e1).
            Safe-then (λ _. IsValid) R (close (suc f) p st1) _
              (closed st1 (record s { queue = left }) v1 e1) (λ _ st2 v2. (refl, v2)))
    go undrained h = absurd h
