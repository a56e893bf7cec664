-- ===== src/Sockets/Serving.antt =====
-- On a well-formed store the functions of src/adbd/sockets.c and src/adbd/jdwp_service.c that move
-- packets and close sockets meet no dead pointer, do not run short of fuel, and leave the store
-- well-formed.
use adbd.Sockets.Pairs.{near_pair, far_pair}
pub mod Enqueue
pub mod Ready
pub mod Handler
pub mod Receive
use adbd.Base.{
  Option, some, ℕ, suc, ◌≡◌, refl, sym, ap, subst, ◌≢◌, ◌⊎◌, inl, inr, List, ℕ_discrete,
}
use adbd.Sockets.{Socket, Store, update}
use adbd.Sockets.Valid.{
  far_fields, near-far-apart, near_peer, Near, near_of, far_of, IsNear, IsFar, Sound, IsValid,
  peer_at, near_sound, lingering_sound, far_sound,
}
use adbd.Sockets.Altered.{
  altered-IsNear, Altered-IsValid, Safe, Safe-map, Alike, IsAltered, both_near,
}
use adbd.Sockets.Cut.{Cut-IsValid, IsCut}
use adbd.Sockets.Ops.{close}
use adbd.Sockets.Steps.{update_other, update_same, set_socket}

-- The well-formed stores where `p` is a socket of the daemon's side with the peer `q`.
pub record Serves (p q : ℕ) (st : Store) : Type 0 where
  pub valid : IsValid st
  pub near : IsNear q (st.sockets p)

-- Nothing of what a well-formed store is about is changed.
pub unaltered :
    (st st' : Store)
    → st'.sockets ≡ st.sockets
    → st'.fresh ≡ st.fresh
    → st'.socket_list ≡ st.socket_list
    → st'.disconnects ≡ st.disconnects
    → IsAltered st st'
unaltered st st' a b c d = record {
  each = λ r. inl (ap (λ (f : ℕ → Option Socket). f r) a);
  same_fresh = b;
  same_list = c;
  same_transports = λ t. ap (λ (f : ℕ → List ℕ). f t) d;
}

pub altered_Serves : {st st' : Store} {p q : ℕ} → IsAltered st st' → Serves p q st → Serves p q st'
altered_Serves {p = p} {q = q} a s = record {
  valid = Altered-IsValid a s.valid;
  near = altered-IsNear a p q s.near;
}

-- An assignment to a field that is not one of the kind's.
pub touched :
    (p q : ℕ) (n : Near) (s s' : Socket) (st : Store)
    → st.sockets p ≡ some (near_of n s (some q))
    → IsAltered st (set_socket p (near_of n s' (some q)) st)
touched p q n s s' st e = record {
  each = each;
  same_fresh = refl;
  same_list = refl;
  same_transports = λ t. refl;
}
  where
    v : Option Socket
    v = some (near_of n s' (some q))

    each :
        (r : ℕ)
        → (update st.sockets p v r ≡ st.sockets r) ⊎ Alike (st.sockets r) (update st.sockets p v r)
    each r = elim (ℕ_discrete r p) [
      | yes k ↦ inr (
          subst (λ j. Alike (st.sockets j) (update st.sockets p v j)) (sym k)
            (both_near q (record { kind = n; base = s; same = e })
              (record { kind = n; base = s'; same = update_same st.sockets p v })))
      | no k ↦ inl (update_other st.sockets p v r k)
    ]

far_unpacked :
    {st : Store} {p : ℕ} {x : Socket}
    → Sound st p x
    → (q : ℕ) → IsNear q (some x)
    → (t : ℕ) × IsFar p t (st.sockets q)
far_unpacked {st} {p} (near_sound n s q' t f) q k =
    let same : q' ≡ q = near_peer (record { kind = n; base = s; same = refl }) k in
    (t, subst (λ j. IsFar p t (st.sockets j)) same f)
far_unpacked (lingering_sound s) q k = let c = ap peer_at k.same in cc
far_unpacked (far_sound id l t n i) q k =
    absurd (near-far-apart k (record { number = id; same = refl }))

IsNear-unpacked :
    {st : Store} {q : ℕ} {x : Socket}
    → Sound st q x
    → (p t : ℕ) → IsFar p t (some x)
    → IsNear q (st.sockets p)
IsNear-unpacked (near_sound n s q' t' f) p t k =
    absurd (near-far-apart (record { kind = n; base = s; same = refl }) k)
IsNear-unpacked (lingering_sound s) p t k = let c = ap peer_at k.same in cc
IsNear-unpacked {st} {q} (far_sound id l t' n i) p t k =
    let same : l ≡ p = (far_fields (record { number = id; same = refl }) k).0 in
    subst (λ j. IsNear q (st.sockets j)) same n

module _ {st : Store} (valid : IsValid st) where
  -- Each end of a pair finds the other.
  pub its_far : (p q : ℕ) → IsNear q (st.sockets p) → (t : ℕ) × IsFar p t (st.sockets q)
  its_far p q n =
      far_unpacked (valid.sound p (near_of n.kind n.base (some q)) n.same) q
        (record { kind = n.kind; base = n.base; same = refl })

  pub its-IsNear : (p q t : ℕ) → IsFar p t (st.sockets q) → IsNear q (st.sockets p)
  its-IsNear p q t f =
      IsNear-unpacked (valid.sound q (far_of f.number (some p) t) f.same) p t
        (record { number = f.number; same = refl })

  pub apart_ends : (p q t : ℕ) → IsNear q (st.sockets p) → IsFar p t (st.sockets q) → p ≢ q
  apart_ends p q t n f e = near-far-apart n (subst (λ k. IsFar p t (st.sockets k)) (sym e) f)

  pub near_close_IsValid :
      (f p q : ℕ) → IsNear q (st.sockets p) → Safe (λ _. IsValid) (close (suc (suc f)) p st)
  near_close_IsValid f p q n =
      let (t, far) = its_far p q n in
      Safe-map (λ _. IsCut p q t st) (λ _. IsValid) (close (suc (suc f)) p st)
        (near_pair f p q far.number t n.base st (apart_ends p q t n far) far.same n.kind n.same)
        (λ _ st' cut. Cut-IsValid p q t st st' valid n far cut)

  pub far_close_IsValid :
      (f p q : ℕ) → IsNear q (st.sockets p) → Safe (λ _. IsValid) (close (suc (suc f)) q st)
  far_close_IsValid f p q n =
      let (t, far) = its_far p q n in
      Safe-map (λ _. IsCut p q t st) (λ _. IsValid) (close (suc (suc f)) q st)
        (far_pair f p q far.number t n.base st (apart_ends p q t n far) far.same n.kind n.same)
        (λ _ st' cut. Cut-IsValid p q t st st' valid n far cut)
