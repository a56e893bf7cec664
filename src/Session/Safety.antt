-- ===== src/Session/Safety.antt =====
-- The packet handler of src/adbd/adb.c on a well-formed store: no dead pointer is met, no close runs
-- short of fuel, and the store stays well-formed.
use adbd.Base.{
  In, Option, none, some, ℕ, ◌≡◌, refl, sym, subst, inl, inr, Bool, true, false, List, [], ◌∷◌,
  ◌==◌, if◌then◌else◌,
}
use adbd.Sockets.{Store, Cmd, pure, ◌>>=◌, ◌>>◌, update, find_in, find_local_socket}
use adbd.Sockets.Valid.{near_of, IsValid}
use adbd.Sockets.Altered.{Altered-IsValid, Safe, Safe-then}
use adbd.Sockets.Ops.{send_packet}
use adbd.Sockets.Steps.{Safe-step, load_run}
use adbd.Sockets.Transfer.{Answer, enqueue, settled, waiting, gone}
use adbd.Sockets.Serving.{near_close_IsValid, Serves, unaltered}
use adbd.Sockets.Serving.Enqueue.{Taken, enqueue_Taken}
use adbd.Sockets.Serving.Ready.{ready_IsValid}
use adbd.Session.{set_framework, Framework, Env, depth, with_transport, send_ready}
use adbd.Session.Handler.{
  create_local_service_socket, open_request, handle_open, ensure_peer, handle_okay, handle_close,
  answer, handle_write,
}
use adbd.Session.Opening.{Created, create_Created}
use adbd.Session.Pairing.{sent_IsValid, opened-IsValid}
use adbd.Packet.{Packet}
use adbd.Transport.{Transport}

module _ {ℓ} {A : Type ℓ} where
  -- From every well-formed store the command ends, with a well-formed one or with the process.
  pub record Preserves (m : Cmd A) : Type ℓ where
    pub runs : (st : Store) → IsValid st → Safe (λ _. IsValid) (m st)

pub Preserves-bind {ℓ κ} :
    {A : Type ℓ} {B : Type κ} {m : Cmd A} {k : A → Cmd B}
    → Preserves m
    → ((a : A) → Preserves (k a))
    → Preserves (m >>= k)
Preserves-bind {m} {k} hm hk = record {
  runs = λ st v. Safe-then (λ _. IsValid) (λ _. IsValid) (m st) k (hm.runs st v) (λ a. (hk a).runs);
}

pub Preserves-seq {ℓ} :
    {B : Type ℓ} {m : Cmd (Unit {0})} {k : Cmd B} → Preserves m → Preserves k → Preserves (m >> k)
Preserves-seq hm hk = Preserves-bind hm (λ _. hk)

pub Preserves-pure {ℓ} : {A : Type ℓ} (a : A) → Preserves (pure a)
Preserves-pure a = record { runs = λ st v. v }

pub Preserves-if {ℓ} :
    {A : Type ℓ} (b : Bool) {m n : Cmd A}
    → Preserves m
    → Preserves n
    → Preserves (if b then m else n)
Preserves-if true hm hn = hm
Preserves-if false hm hn = hn

pub send_packet-Preserves : (pkt : Packet) (t : Option ℕ) → Preserves (send_packet pkt t)
send_packet-Preserves pkt t = record { runs = λ st v. sent_IsValid pkt t st v }

pub with_transport-Preserves : (t : ℕ) (f : Transport → Transport) → Preserves (with_transport t f)
with_transport-Preserves t f = record {
  runs = λ st v.
      Altered-IsValid
        (unaltered st (record st { transports = update st.transports t (f (st.transports t)) }) refl
          refl refl refl)
        v;
}

pub set_framework-Preserves : (f : Framework) → Preserves (set_framework f)
set_framework-Preserves f = record {
  runs = λ st v. Altered-IsValid (unaltered st (record st { framework = f }) refl refl refl refl) v;
}

-- A member of the local list that `find_local_socket` returns, and the store as it was.
abbrev pub Found : Store → Option ℕ → Store → Type 0
Found st none st' = st' ≡ st
Found st (some l) st' = (st' ≡ st) × In l st.socket_list

find_in-Found :
    (id : ℕ) (ps : List ℕ) (st : Store)
    → IsValid st
    → ((r : ℕ) → In r ps → In r st.socket_list)
    → Safe (Found st) (find_in id ps st)
unfolding find_in
find_in-Found id [] st v sub = refl
find_in-Found id (p ∷ ps) st v sub =
    let (q, n) = v.listed p (sub p (inl refl)) in
    Safe-step (Found st) _ (load_run p (near_of n.kind n.base (some q)) st n.same)
      (go (n.base.id == id) (find_in-Found id ps st v (λ r i. sub r (inr i))))
  where
    go :
        (b : Bool)
        → Safe (Found st) (find_in id ps st)
        → Safe (Found st) ((if b then pure (some p) else find_in id ps) st)
    go true h = (refl, sub p (inl refl))
    go false h = h

find_local_socket-Found :
    (id : ℕ) (st : Store) → IsValid st → Safe (Found st) (find_local_socket id st)
unfolding find_local_socket
find_local_socket-Found id st v = find_in-Found id st.socket_list st v (λ r i. i)

-- A case that first looks for a local socket.
found-Preserves :
    (id : ℕ) (k : Option ℕ → Cmd (Unit {0}))
    → Preserves (k none)
    → ((l q : ℕ) (st : Store) → Serves l q st → Safe (λ _. IsValid) (k (some l) st))
    → Preserves (find_local_socket id >>= k)
found-Preserves id k nothing something = record {
  runs = λ st v.
      Safe-then (Found st) (λ _. IsValid) (find_local_socket id st) k
        (find_local_socket-Found id st v) (λ o st' h. next st v o st' h);
}
  where
    next :
        (st : Store)
        → IsValid st
        → (o : Option ℕ) (st' : Store) → Found st o st'
        → Safe (λ _. IsValid) (k o st')
    next st v none st' h = nothing.runs st' (subst IsValid (sym h) v)
    next st v (some l) st' (h, i) =
        let (q, n) = v.listed l i in
        subst (λ s. Safe (λ _. IsValid) (k (some l) s)) (sym h)
          (something l q st (record { valid = v; near = n }))

pub handle_okay-Preserves :
    (p : Packet) (t : ℕ) → Preserves (find_local_socket p.msg.arg1 >>= handle_okay p t)
unfolding handle_okay ensure_peer
handle_okay-Preserves p t =
    found-Preserves p.msg.arg1 (handle_okay p t) (Preserves-pure tt) (λ l q st h.
      Safe-step (λ _. IsValid) _
        (load_run l (near_of h.near.kind h.near.base (some q)) st h.near.same)
        (ready_IsValid 1 l q st h))

pub handle_close-Preserves :
    (p : Packet) → Preserves (find_local_socket p.msg.arg1 >>= handle_close)
unfolding handle_close
handle_close-Preserves p =
    found-Preserves p.msg.arg1 handle_close (Preserves-pure tt)
      (λ l q st h. near_close_IsValid h.valid 1 l q h.near)

pub handle_write-Preserves :
    (p : Packet) (t : ℕ) → Preserves (find_local_socket p.msg.arg1 >>= handle_write p t)
unfolding handle_write answer send_ready
handle_write-Preserves p t =
    found-Preserves p.msg.arg1 (handle_write p t) (Preserves-pure tt) (λ l q st h.
      Safe-then (Taken l q) (λ _. IsValid) (enqueue depth l _ st) _ (enqueue_Taken 1 l q _ st h)
        (next l q))
  where
    next :
        (l q : ℕ) (a : Answer) (st : Store)
        → Taken l q a st
        → Safe (λ _. IsValid) (answer l p.msg.arg0 t a st)
    next l q settled st h =
        Safe-step (λ _. IsValid) _
          (load_run l (near_of h.near.kind h.near.base (some q)) st h.near.same)
          (sent_IsValid _ (some t) st h.valid)
    next l q waiting st h = h
    next l q gone st h = h

pub handle_open-Preserves : (e : Env) (p : Packet) (t : ℕ) → Preserves (handle_open e p t)
unfolding handle_open
handle_open-Preserves e p t = record {
  runs = λ st v.
      Safe-then (Created st) (λ _. IsValid) (create_local_service_socket e (open_request p) st) _
        (create_Created e (open_request p) st) (λ l st1 o. opened-IsValid p t l st st1 v o);
}
