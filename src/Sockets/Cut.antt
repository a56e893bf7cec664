-- ===== src/Sockets/Cut.antt =====
-- A pair of sockets of src/adbd/sockets.c that is taken apart leaves a well-formed store.
use adbd.Base.{Option, none, some, ℕ, ◌≤◌, ◌≡◌, sym, ap, subst, ◌∙◌, ◌≢◌, ◌⊎◌, inl, inr, ℕ_discrete}
use adbd.Base.{In, Distinct}
use adbd.Sockets.{Socket, Store, unlink}
use adbd.Sockets.Valid.{
  near_peer, near-far-apart, far_fields, lingering_of, IsNear, IsFar, Sound, IsValid, In-unlink,
  unlink-In, unlink-Distinct, near_sound, lingering_sound, far_sound,
}

-- What may stand where a socket of the daemon's side stood.
abbrev pub Parted : Option Socket → Type 0
Parted o = (o ≡ none) ⊎ ((s : Socket) × (o ≡ some (lingering_of s)))

-- The store `st'` is `st` without the pair of `p` and its remote socket `q` of the transport `t`.
pub record IsCut (p q t : ℕ) (st st' : Store) : Type 0 where
  pub others : (r : ℕ) → r ≢ p → r ≢ q → st'.sockets r ≡ st.sockets r
  pub far_gone : st'.sockets q ≡ none
  pub near_gone : Parted (st'.sockets p)
  pub same_fresh : st'.fresh ≡ st.fresh
  pub left_list : st'.socket_list ≡ unlink p st.socket_list
  pub left_transport : st'.disconnects t ≡ unlink q (st.disconnects t)
  pub other_transports : (t' : ℕ) → t' ≢ t → st'.disconnects t' ≡ st.disconnects t'

module _ (p q t : ℕ) (st st' : Store) (valid : IsValid st) (near : IsNear q (st.sockets p))
    (far : IsFar p t (st.sockets q)) (cut : IsCut p q t st st') where
  -- The two are not one.
  apart : p ≢ q
  apart e = near-far-apart near (subst (λ k. IsFar p t (st.sockets k)) (sym e) far)

  stays-IsNear : (r l : ℕ) → IsNear l (st.sockets r) → r ≢ p → IsNear l (st'.sockets r)
  stays-IsNear r l n ne =
      subst (IsNear l)
        (sym (cut.others r ne (λ e. near-far-apart (subst (λ k. IsNear l (st.sockets k)) e n) far)))
        n

  stays_far : (r l k : ℕ) → IsFar l k (st.sockets r) → r ≢ q → IsFar l k (st'.sockets r)
  stays_far r l k f ne =
      subst (IsFar l k)
        (sym
          (cut.others r (λ e. near-far-apart near (subst (λ i. IsFar l k (st.sockets i)) e f)) ne))
        f

  stays_joined : (r k : ℕ) → r ≢ q → In r (st.disconnects k) → In r (st'.disconnects k)
  stays_joined r k ne i = elim (ℕ_discrete k t) [
    | yes e ↦
        subst (λ j. In r (st'.disconnects j)) (sym e)
          (subst (In r) (sym cut.left_transport)
            (unlink-In r q (st.disconnects t) ne (subst (λ j. In r (st.disconnects j)) e i)))
    | no e ↦ subst (In r) (sym (cut.other_transports k e)) i
  ]

  was_joined : (r k : ℕ) → In r (st'.disconnects k) → In r (st.disconnects k) × (r ≢ q)
  was_joined r k i = elim (ℕ_discrete k t) [
    | yes e ↦
        let i' = subst (In r) cut.left_transport (subst (λ j. In r (st'.disconnects j)) e i) in
        (
          subst (λ j. In r (st.disconnects j)) (sym e) (In-unlink r q (st.disconnects t) i'),
          λ same.
              (unlink-Distinct q (st.disconnects t) (valid.joined_once t)).1
                (subst (λ j. In j (unlink q (st.disconnects t))) same i'),
        )
    | no e ↦
        let i' = subst (In r) (cut.other_transports k e) i in
        (
          i',
          λ same.
              let (l, f) = valid.joined k r i' in
              e (far_fields (subst (λ j. IsFar l k (st.sockets j)) same f) far).1,
        )
  ]

  still_Sound : (r : ℕ) (s : Socket) → r ≢ p → r ≢ q → Sound st r s → Sound st' r s
  still_Sound r _ np nq (near_sound n s l k f) =
      near_sound n s l k
        (stays_far l r k f (λ e. np (far_fields (subst (λ j. IsFar r k (st.sockets j)) e f) far).0))
  still_Sound r _ np nq (lingering_sound s) = lingering_sound s
  still_Sound r _ np nq (far_sound id l k n i) =
      far_sound id l k
        (stays-IsNear l r n (λ e. nq (near_peer (subst (λ j. IsNear r (st.sockets j)) e n) near)))
        (stays_joined r k nq i)

  Sound-after : (r : ℕ) (s : Socket) → st'.sockets r ≡ some s → Sound st' r s
  Sound-after r s e = elim (ℕ_discrete r p) [
    | yes rp ↦ elim cut.near_gone [
      | inl gone ↦ let c = sym e ∙ ap st'.sockets rp ∙ gone in cc
      | inr (l, is) ↦
          let c : some (lingering_of l) ≡ some s = sym is ∙ ap st'.sockets (sym rp) ∙ e in
          let c' : lingering_of l ≡ s = cc in subst (Sound st' r) c' (lingering_sound l)
    ]
    | no np ↦ elim (ℕ_discrete r q) [
      | yes rq ↦ let c = sym e ∙ ap st'.sockets rq ∙ cut.far_gone in cc
      | no nq ↦ still_Sound r s np nq (valid.sound r s (sym (cut.others r np nq) ∙ e))
    ]
  ]

  -- What is below `fresh` is neither of the two.
  above_after : (r : ℕ) → st'.fresh ≤ r → st'.sockets r ≡ none
  above_after r h =
      let old = valid.above r (subst (λ k. k ≤ r) cut.same_fresh h) in
      cut.others r (λ e. let c = sym old ∙ ap st.sockets e ∙ near.same in cc)
        (λ e. let c = sym old ∙ ap st.sockets e ∙ far.same in cc)
      ∙ old

  listed_after : (r : ℕ) → In r st'.socket_list → (l : ℕ) × IsNear l (st'.sockets r)
  listed_after r i =
      let i' = subst (In r) cut.left_list i in
      let (l, n) = valid.listed r (In-unlink r p st.socket_list i') in
      (
        l,
        stays-IsNear r l n (λ e.
            (unlink-Distinct p st.socket_list valid.once).1
              (subst (λ k. In k (unlink p st.socket_list)) e i')),
      )

  joined_after : (k r : ℕ) → In r (st'.disconnects k) → (l : ℕ) × IsFar l k (st'.sockets r)
  joined_after k r i =
      let (i', nq) = was_joined r k i in
      let (l, f) = valid.joined k r i' in (l, stays_far r l k f nq)

  pub Cut-IsValid : IsValid st'
  Cut-IsValid = record {
    above = above_after;
    sound = Sound-after;
    listed = listed_after;
    once = subst Distinct (sym cut.left_list) (unlink-Distinct p st.socket_list valid.once).0;
    joined = joined_after;
    joined_once = λ k. elim (ℕ_discrete k t) [
      | yes e ↦
          subst (λ j. Distinct (st'.disconnects j)) (sym e)
            (subst Distinct (sym cut.left_transport)
              (unlink-Distinct q (st.disconnects t) (valid.joined_once t)).0)
      | no e ↦ subst Distinct (sym (cut.other_transports k e)) (valid.joined_once k)
    ];
  }
