-- ===== src/Sockets/CloseAll/Search.antt =====
-- What the search of `close_all_sockets` (src/adbd/sockets.c) finds in a well-formed store.
use adbd.Base.{
  Option, none, some, ℕ, ◌≡◌, ◌≢◌, refl, sym, ap, ◌∙◌, subst, inl, inr, Bool, true, false, List, [],
  ◌∷◌, In, ◌==◌, ==_iff,
}
use adbd.Sockets.{load, Socket, Store, ok}
use adbd.Sockets.Valid.{near_of, far_of, local, IsNear, IsFar, IsValid, near_peer, far_fields}
use adbd.Sockets.Serving.{its_far}
use adbd.Sockets.Steps.{load_run}
use adbd.Sockets.CloseAll.{transport_is, peer_transport_is, belongs, find_belonging}

-- The socket at `p` is none of the transport `t`, and neither is its remote socket.
pub record IsFree (t p : ℕ) (st : Store) : Type 0 where
  pub own : (s : Socket) → st.sockets p ≡ some s → s.transport ≢ some t
  pub its_peer : (q u : ℕ) → IsNear q (st.sockets p) → IsFar p u (st.sockets q) → u ≢ t

-- A local socket with the peer `q`.
pub record IsLocal (o : Option Socket) : Type 0 where
  pub peer : ℕ
  pub base : Socket
  pub same : o ≡ some (near_of local base (some peer))

pub local-IsNear : {o : Option Socket} (l : IsLocal o) → IsNear l.peer o
local-IsNear l = record { kind = local; base = l.base; same = l.same }

transport_is-true : (t : ℕ) (o : Option ℕ) → transport_is t o ≡ true → o ≡ some t
unfolding transport_is
transport_is-true t none e = cc
transport_is-true t (some u) e = ap some ((==_iff u t).0 e)

transport_is-false : (t : ℕ) (o : Option ℕ) → transport_is t o ≡ false → o ≢ some t
unfolding transport_is
transport_is-false t o e k =
    let c : transport_is t (some t) ≡ false = subst (λ o. transport_is t o ≡ false) k e in
    let d : (t == t) ≡ true = (==_iff t t).1 refl in cc

-- What the search comes to.
abbrev pub Searched : ℕ → List ℕ → Store → Option ℕ → Type 0
Searched t ps st none = (r : ℕ) → In r ps → IsFree t r st
Searched t ps st (some p) = In p ps × (¬ IsFree t p st)

module _ (t : ℕ) (st : Store) (valid : IsValid st) where
  -- The test of one socket.
  abbrev Tested : ℕ → Bool → Type 0
  Tested p true = ¬ IsFree t p st
  Tested p false = IsFree t p st

  belongs_run :
      (p : ℕ) (l : IsLocal (st.sockets p))
      → (b : Bool) × (belongs t (near_of local l.base (some l.peer)) st ≡ ok b st) × Tested p b
  unfolding belongs peer_transport_is
  belongs_run p l = go (transport_is t l.base.transport) (transport_is t (some u)) refl refl
    where
      near : IsNear l.peer (st.sockets p)
      near = local-IsNear l

      u : ℕ
      u = (its_far valid p l.peer near).0

      far : IsFar p u (st.sockets l.peer)
      far = (its_far valid p l.peer near).1

      x : Socket
      x = near_of local l.base (some l.peer)

      unpack : {a b : Socket} → some a ≡ some b → a ≡ b
      unpack e = cc

      go :
          (a b : Bool)
          → transport_is t l.base.transport ≡ a
          → transport_is t (some u) ≡ b
          → (c : Bool) × (belongs t x st ≡ ok c st) × Tested p c
      go true b e k = (true, rw e refl, λ free. free.own x l.same (transport_is-true t _ e))
      go false b e k = (
        b,
        rw (e) (rw (load_run l.peer (far_of far.number (some p) u) st far.same) (rw k refl)),
        tested b k,
      )
        where
          tested : (c : Bool) → transport_is t (some u) ≡ c → Tested p c
          tested true k = λ free.
              free.its_peer l.peer u near far
                (let c : some u ≡ some t = transport_is-true t (some u) k in cc)
          tested false k = record {
            own = λ s is same.
                transport_is-false t l.base.transport e
                  (ap (λ (z : Socket). z.transport) (unpack (sym l.same ∙ is)) ∙ same);
            its_peer = λ q u' n f same. transport_is-false t (some u) k (
                ap some (
                  (far_fields far (subst (λ j. IsFar p u' (st.sockets j)) (near_peer n near) f)).1
                  ∙ same));
          }

  pub find_belonging_run :
      (ps : List ℕ)
      → ((r : ℕ) → In r ps → IsLocal (st.sockets r))
      → (o : Option ℕ) × (find_belonging t ps st ≡ ok o st) × Searched t ps st o
  unfolding find_belonging
  find_belonging_run [] h = (none, refl, λ r i. absurd i)
  find_belonging_run (p ∷ ps) h =
      let l = h p (inl refl) in
      let (b, e, tested) = belongs_run p l in
      let rest = find_belonging_run ps (λ r i. h r (inr i)) in
      go b (load_run p (near_of local l.base (some l.peer)) st l.same) e tested rest
    where
      go :
          (b : Bool) {x : Socket}
          → load p st ≡ ok x st
          → belongs t x st ≡ ok b st
          → Tested p b
          → ((o : Option ℕ) × (find_belonging t ps st ≡ ok o st) × Searched t ps st o)
          → (o : Option ℕ) × (find_belonging t (p ∷ ps) st ≡ ok o st) × Searched t (p ∷ ps) st o
      go true a e tested rest = (some p, rw a (rw e refl), (inl refl, tested))
      go false a e tested (none, r, free) = (
        none,
        rw a (rw e r),
        λ q i. elim i [ inl k ↦ subst (λ j. IsFree t j st) k tested | inr i ↦ free q i ],
      )
      go false a e tested (some q, r, (i, found)) = (some q, rw a (rw e r), (inr i, found))
