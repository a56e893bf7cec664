-- ===== src/Sockets/Valid.antt =====
-- The well-formed stores of src/adbd/sockets.c: each socket on the daemon's side and its remote
-- socket point at each other, a list holds live sockets only, and none twice.
use adbd.Base.{
  Option, none, some, ℕ, ◌≤◌, ◌≡◌, refl, sym, ap, subst, ◌∙◌, ◌≢◌, inl, inr, Bool, true, false,
  List, [], ◌∷◌, arith, ◌==◌, if◌then◌else◌, ==_iff,
}
use adbd.Base.{In, Distinct}
use adbd.Sockets.{
  EnqueueFn, ReadyFn, CloseFn, Socket, blank, Store, unlink, local_socket_enqueue,
  remote_socket_enqueue, jdwp_socket_enqueue, jdwp_tracker_enqueue, local_socket_ready,
  remote_socket_ready, jdwp_socket_ready, jdwp_tracker_ready, local_socket_close,
  remote_socket_close, local_socket_close_notify, jdwp_socket_close, jdwp_tracker_close,
}

-- The kinds of socket on the daemon's side that `create_local_service_socket` makes.
pub data Near : Type 0 where
  local jdwp tracker : Near

abbrev pub near_enqueue : Near → EnqueueFn
near_enqueue local = local_socket_enqueue
near_enqueue jdwp = jdwp_socket_enqueue
near_enqueue tracker = jdwp_tracker_enqueue

abbrev pub near_ready : Near → ReadyFn
near_ready local = local_socket_ready
near_ready jdwp = jdwp_socket_ready
near_ready tracker = jdwp_tracker_ready

abbrev pub near_close : Near → CloseFn
near_close local = local_socket_close
near_close jdwp = jdwp_socket_close
near_close tracker = jdwp_tracker_close

-- A socket of a kind, in the local list, with its peer.
abbrev pub near_of : Near → Socket → Option ℕ → Socket
near_of n s peer = record s {
  enqueue = near_enqueue n;
  ready = near_ready n;
  close = near_close n;
  closing = false;
  peer = peer;
  linked = true;
}

-- A local socket that waits for its queue to drain.
abbrev pub lingering_of : Socket → Socket
lingering_of s = record s {
  enqueue = local_socket_enqueue;
  ready = local_socket_ready;
  close = local_socket_close;
  closing = true;
  peer = none;
  linked = true;
}

-- A remote socket.
abbrev pub far_of : ℕ → Option ℕ → ℕ → Socket
far_of id peer t = record (blank remote_socket_enqueue remote_socket_ready remote_socket_close) {
  id = id;
  peer = peer;
  transport = some t;
}

-- What stands at a pointer: a socket of the daemon's side with the peer `q`; a remote socket of the
-- transport `t` with the peer `l`.
pub record IsNear (q : ℕ) (o : Option Socket) : Type 0 where
  pub kind : Near
  pub base : Socket
  pub same : o ≡ some (near_of kind base (some q))

pub record IsFar (l t : ℕ) (o : Option Socket) : Type 0 where
  pub number : ℕ
  pub same : o ≡ some (far_of number (some l) t)

-- What a live socket at `p` may be.
pub data Sound (st : Store) (p : ℕ) : Socket → Type 0 where
  near_sound :
      (n : Near) (s : Socket) (q t : ℕ)
      → IsFar p t (st.sockets q)
      → Sound st p (near_of n s (some q))
  lingering_sound : (s : Socket) → Sound st p (lingering_of s)
  far_sound :
      (id l t : ℕ)
      → IsNear p (st.sockets l)
      → In p (st.disconnects t)
      → Sound st p (far_of id (some l) t)

pub record IsValid (st : Store) : Type 0 where
  pub above : (p : ℕ) → st.fresh ≤ p → st.sockets p ≡ none
  pub sound : (p : ℕ) (s : Socket) → st.sockets p ≡ some s → Sound st p s
  pub listed : (p : ℕ) → In p st.socket_list → (q : ℕ) × IsNear q (st.sockets p)
  pub once : Distinct st.socket_list
  pub joined : (t p : ℕ) → In p (st.disconnects t) → (l : ℕ) × IsFar l t (st.sockets p)
  pub joined_once : (t : ℕ) → Distinct (st.disconnects t)

pub In-unlink : (r p : ℕ) (xs : List ℕ) → In r (unlink p xs) → In r xs
unfolding unlink
In-unlink r p [] h = h
In-unlink r p (x ∷ xs) h = go (p == x) h (In-unlink r p xs)
  where
    go :
        (b : Bool)
        → In r (if b then xs else x ∷ unlink p xs)
        → (In r (unlink p xs) → In r xs)
        → In r (x ∷ xs)
    go true h' ih = inr h'
    go false (inl e) ih = inl e
    go false (inr i) ih = inr (ih i)

pub unlink-In : (r p : ℕ) (xs : List ℕ) → r ≢ p → In r xs → In r (unlink p xs)
unfolding unlink
unlink-In r p [] ne h = h
unlink-In r p (x ∷ xs) ne h = go (p == x) refl h (unlink-In r p xs ne)
  where
    go :
        (b : Bool)
        → (p == x) ≡ b
        → In r (x ∷ xs)
        → (In r xs → In r (unlink p xs))
        → In r (if b then xs else x ∷ unlink p xs)
    go true e (inl i) ih = absurd (ne (sym i ∙ sym ((==_iff p x).0 e)))
    go true e (inr i) ih = i
    go false e (inl i) ih = inl i
    go false e (inr i) ih = inr (ih i)

pub unlink-Distinct :
    (p : ℕ) (xs : List ℕ) → Distinct xs → Distinct (unlink p xs) × ¬ In p (unlink p xs)
unfolding unlink
unlink-Distinct p [] d = (tt, λ x. x)
unlink-Distinct p (x ∷ xs) (new, d) = go (p == x) refl (unlink-Distinct p xs d)
  where
    go :
        (b : Bool)
        → (p == x) ≡ b
        → Distinct (unlink p xs) × ¬ In p (unlink p xs)
        → Distinct (if b then xs else x ∷ unlink p xs) × ¬ In p (if b then xs else x ∷ unlink p xs)
    go true e ih = (d, λ i. new (subst (λ k. In k xs) ((==_iff p x).0 e) i))
    go false e (d', out) = (
      (λ i. new (In-unlink x p xs i), d'),
      λ i. elim i [ inl q ↦ absurd (ground (arith, (==_iff p x).1 (sym q))) | inr j ↦ out j ],
    )

-- Two shapes of one object agree in their fields.
abbrev pub peer_at : Option Socket → Option ℕ
peer_at none = none
peer_at (some s) = s.peer

abbrev pub transport_at : Option Socket → Option ℕ
transport_at none = none
transport_at (some s) = s.transport

abbrev pub is_far : Option Socket → Bool
is_far none = false
is_far (some s) = elim s.close [
  | local_socket_close ↦ false
  | remote_socket_close ↦ true
  | local_socket_close_notify ↦ false
  | jdwp_socket_close ↦ false
  | jdwp_tracker_close ↦ false
]

far-near : (n : Near) (s : Socket) (peer : Option ℕ) → is_far (some (near_of n s peer)) ≡ false
far-near local s peer = refl
far-near jdwp s peer = refl
far-near tracker s peer = refl

module _ {o : Option Socket} where
  pub near-far-apart : {q l t : ℕ} → IsNear q o → IsFar l t o → ⊥
  near-far-apart {q = q} a b =
      let c = sym (far-near a.kind a.base (some q)) ∙ ap is_far (sym a.same ∙ b.same) in
      ground arith

  pub near_peer : {q q' : ℕ} → IsNear q o → IsNear q' o → q ≡ q'
  near_peer a b = let c = ap peer_at (sym a.same ∙ b.same) in cc

  pub far_fields : {l l' t t' : ℕ} → IsFar l t o → IsFar l' t' o → (l ≡ l') × (t ≡ t')
  far_fields a b =
      let c = ap peer_at (sym a.same ∙ b.same) in
      let d = ap transport_at (sym a.same ∙ b.same) in (cc, cc)
