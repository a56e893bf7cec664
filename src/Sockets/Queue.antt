-- ===== src/Sockets/Queue.antt =====
-- The queue of a local socket: what has been written to its descriptor and what waits in the queue
-- are, in this order, the bytes that were handed to it.
use adbd.Sockets.Live.{IsLive, NotDead, flush-NotDead}
use adbd.Base.{
  ℕ, zero, suc, ◌<◌, ◌≡◌, refl, sym, ap, ◌∙◌, Bool, true, false, some, some, List, [], ◌∷◌, ◌++◌,
  append-nil, append_assoc, arith, Bytes, length, take, drop, length-drop, take-append-drop, All,
  ==_iff,
}
use adbd.Io.{eintr, eagain, other, Turn, Sink, Writing, took, refused, adb_write}
use adbd.Io.Writes.{Takes, adb_write-Takes}
use adbd.Packet.{Packet}
use adbd.Sockets.{store, modify, load, Socket, Store, Run, ok, update}
use adbd.Sockets.Transfer.{
  set_sink, append_packet, enqueue_on, after_flush, Flush, flushed, blocked, dead, unflushed, flush,
  Answer, settled, waiting, local_enqueue,
}
use adbd.Sockets.Events.{after_packet, Drain, drained, stalled, perished, undrained, drain}

-- The bytes of a queue, in order.
abbrev pub joined : List Bytes → Bytes
joined [] = []
joined (b ∷ qs) = b ++ joined qs

-- The loop over one packet ends, and loses no byte.
abbrev pub Flushes : Bytes → Bytes → Flush → Type 0
Flushes out bs (flushed s) = s.written ≡ out ++ bs
Flushes out bs (blocked rest s) = s.written ++ rest ≡ out ++ bs
Flushes out bs (dead rest s) = s.written ++ rest ≡ out ++ bs
Flushes out bs unflushed = ⊥

pub flush-Flushes :
    (retry : Bool) (f : ℕ) (bs out : Bytes) (ps : List Turn)
    → length bs < f
    → Flushes out bs (flush retry f bs (record { written = out; plan = ps }))
unfolding flush
flush-Flushes retry zero bs out ps h = absurd (omega arith)
flush-Flushes retry (suc f) [] out ps h = sym (append-nil out)
flush-Flushes retry (suc f) (b ∷ bs) out ps h =
    go (adb_write (b ∷ bs) out ps) refl (adb_write-Takes (b ∷ bs) out ps) (flush-Flushes retry f)
  where
    go :
        (w : Writing)
        → adb_write (b ∷ bs) out ps ≡ w
        → Takes out (b ∷ bs) w
        → ((bs' out' : Bytes) (ps' : List Turn)
            → length bs' < f
            → Flushes out' bs' (flush retry f bs' (record { written = out'; plan = ps' })))
        → Flushes out (b ∷ bs) (flush retry (suc f) (b ∷ bs) (record { written = out; plan = ps }))
    go (took zero s) e t ih = rw (e, flush) (rw t.0 (rw append-nil))
    go (took (suc n) s) e t ih =
        rw (e, flush)
          (join (flush retry f (drop n bs) s)
            (ih (drop n bs) s.written s.plan (omega (arith, length-drop n bs))))
      where
        whole : s.written ++ drop n bs ≡ out ++ (b ∷ bs)
        whole = rw t.0 (
            append_assoc out (b ∷ take n bs) (drop n bs)
            ∙ ap (λ u. out ++ (b ∷ u)) (take-append-drop n bs))

        join : (r : Flush) → Flushes s.written (drop n bs) r → Flushes out (b ∷ bs) r
        join (flushed s') x = x ∙ whole
        join (blocked rest s') x = x ∙ whole
        join (dead rest s') x = x ∙ whole
        join unflushed x = x
    go (refused eintr s) e t ih = absurd t
    go (refused eagain s) e t ih = rw (e, flush) (ap (λ u. u ++ (b ∷ bs)) t)
    go (refused other s) e t ih = rw (e, flush) (ap (λ u. u ++ (b ∷ bs)) t)

-- The loop over the queue ends, and loses no byte.
abbrev pub Drains : Bytes → List Bytes → Drain → Type 0
Drains out qs (drained s) = s.written ≡ out ++ joined qs
Drains out qs (stalled left s) = s.written ++ joined left ≡ out ++ joined qs
Drains out qs (perished left s) = s.written ++ joined left ≡ out ++ joined qs
Drains out qs undrained = ⊥

-- Whatever the kernel does, the loop over a socket's queue ends, and the bytes written and then
-- those left in the queue are the bytes written before and then those that were in the queue: none
-- is lost, doubled or overtaken. With an empty queue left, all are written.
pub drain-Drains : (qs : List Bytes) (s : Sink) → Drains s.written qs (drain qs s)
unfolding drain
drain-Drains [] s = sym (append-nil s.written)
drain-Drains (b ∷ qs) s =
    go (flush true (suc (length b)) b s)
      (flush-Flushes true (suc (length b)) b s.written s.plan (omega arith)) (drain-Drains qs)
  where
    go :
        (r : Flush)
        → Flushes s.written b r
        → ((s' : Sink) → Drains s'.written qs (drain qs s'))
        → Drains s.written (b ∷ qs) (after_packet qs (drain qs) r)
    go (flushed s') x ih = join (drain qs s') (ih s')
      where
        whole : s'.written ++ joined qs ≡ s.written ++ (b ++ joined qs)
        whole = rw x (append_assoc s.written b (joined qs))

        join : (r : Drain) → Drains s'.written qs r → Drains s.written (b ∷ qs) r
        join (drained k) y = y ∙ whole
        join (stalled left k) y = y ∙ whole
        join (perished left k) y = y ∙ whole
        join undrained y = y
    go (blocked rest s') x ih =
        sym (append_assoc s'.written rest (joined qs))
        ∙ ap (λ u. u ++ joined qs) x
        ∙ append_assoc s.written b (joined qs)
    go (dead rest s') x ih =
        sym (append_assoc s'.written rest (joined qs))
        ∙ ap (λ u. u ++ joined qs) x
        ∙ append_assoc s.written b (joined qs)
    go unflushed x ih = absurd x

joined-concat : (qs : List Bytes) (b : Bytes) → joined (qs ++ (b ∷ [])) ≡ joined qs ++ b
joined-concat [] b = append-nil b
joined-concat (q ∷ qs) b =
    ap (λ u. q ++ u) (joined-concat qs b) ∙ sym (append_assoc q (joined qs) b)

-- The outcome of an enqueue of `bs` at the socket `p`, whose object was `s`.
pub record Queued (st : Store) (p : ℕ) (s : Socket) (bs : Bytes) (r : Run Answer) : Type 0 where
  pub result : Answer
  pub after : Store
  pub socket : Socket
  pub returns : r ≡ ok result after
  pub there : after.sockets p ≡ some socket
  pub same_fd : socket.fd ≡ s.fd
  pub order :
      (after.sinks s.fd).written ++ joined socket.queue
      ≡ (st.sinks s.fd).written ++ (joined s.queue ++ bs)
  pub settled_empty : result ≡ settled → socket.queue ≡ []
  pub waiting_watched : result ≡ waiting → socket.fde_write ≡ true

module _ (p : ℕ) (bs : Bytes) (s : Socket) where
  append_packet-ok :
      (st : Store)
      → st.sockets p ≡ some s
      → append_packet p bs st
        ≡ ok waiting (record st {
          sockets =
              update st.sockets p
                (some (record s { queue = s.queue ++ (bs ∷ []); fde_write = true }));
        })
  unfolding append_packet modify load store
  append_packet-ok st h = rw h

update_self {ℓ} : {A : Type ℓ} (f : ℕ → A) (p : ℕ) (v : A) → update f p v p ≡ v
update_self f p v = rw ((==_iff p p).1 refl)

after_flush-Queued :
    (f p : ℕ) (bs : Bytes) (s : Socket) (st : Store) (r : Flush)
    → st.sockets p ≡ some s
    → s.queue ≡ []
    → Flushes (st.sinks s.fd).written bs r
    → NotDead r
    → Queued st p s bs (after_flush f p s.fd r st)
unfolding after_flush set_sink
after_flush-Queued f p bs s st (flushed k) h empty fl live = record {
  result = settled;
  after = record st { sinks = update st.sinks s.fd k };
  socket = s;
  returns = refl;
  there = h;
  same_fd = refl;
  order = rw (update_self st.sinks s.fd k, empty, append-nil k.written) fl;
  settled_empty = λ _. empty;
  waiting_watched = λ e. cc;
}
after_flush-Queued f p bs s st (blocked rest k) h empty fl live =
    let st' = record st { sinks = update st.sinks s.fd k } in
    record {
      result = waiting;
      after = record st' {
        sockets =
            update st.sockets p
              (some (record s { queue = s.queue ++ (rest ∷ []); fde_write = true }));
      };
      socket = record s { queue = s.queue ++ (rest ∷ []); fde_write = true };
      returns = append_packet-ok p rest s st' h;
      there = update_self st.sockets p _;
      same_fd = refl;
      order = rw (update_self st.sinks s.fd k, empty, append-nil rest) fl;
      settled_empty = λ e. cc;
      waiting_watched = λ e. refl;
    }
after_flush-Queued f p bs s st (dead rest k) h empty fl live = absurd live
after_flush-Queued f p bs s st unflushed h empty fl live = absurd fl

enqueue_on-Queued :
    (f p : ℕ) (bs : Bytes) (s : Socket) (st : Store) (qs : List Bytes)
    → st.sockets p ≡ some s
    → s.queue ≡ qs
    → All IsLive (st.sinks s.fd).plan
    → Queued st p s bs (enqueue_on f p bs s.fd qs st)
unfolding enqueue_on
enqueue_on-Queued f p bs s st [] h e live =
    let k = st.sinks s.fd in
    after_flush-Queued f p bs s st (flush false (suc (length bs)) bs k) h e
      (flush-Flushes false (suc (length bs)) bs k.written k.plan (omega arith))
      (flush-NotDead false (suc (length bs)) bs k live)
enqueue_on-Queued f p bs s st (q ∷ qs) h e live = record {
  result = waiting;
  after = record st {
    sockets =
        update st.sockets p (some (record s { queue = s.queue ++ (bs ∷ []); fde_write = true }));
  };
  socket = record s { queue = s.queue ++ (bs ∷ []); fde_write = true };
  returns = append_packet-ok p bs s st h;
  there = update_self st.sockets p _;
  same_fd = refl;
  order = ap (λ u. (st.sinks s.fd).written ++ u) (joined-concat s.queue bs);
  settled_empty = λ e. cc;
  waiting_watched = λ e. refl;
}

-- A packet handed to a live local socket: the bytes written to its descriptor and then those in its
-- queue are those there were and then the packet's, in order, however short the kernel's writes
-- are. The answer is 0 only with an empty queue, and with the answer 1 the socket is watched for
-- FDE_WRITE. The hypothesis: no call on the descriptor fails but with EINTR or EAGAIN.
pub local_enqueue-Queued :
    (f p : ℕ) (pkt : Packet) (st : Store) {s : Socket}
    → st.sockets p ≡ some s
    → All IsLive (st.sinks s.fd).plan
    → Queued st p s (take pkt.len pkt.bytes) (local_enqueue f p pkt st)
unfolding local_enqueue load
local_enqueue-Queued f p pkt st {s} h live =
    rw h (enqueue_on-Queued f p (take pkt.len pkt.bytes) s st s.queue h refl live)
