-- ===== src/Sockets/Joined.antt =====
-- A new pair of sockets (src/adbd/sockets.c) joins a well-formed store.
use adbd.Base.{
  none, some, ℕ, ◌+◌, ◌≤◌, ◌≡◌, sym, ap, subst, ◌∙◌, ◌≢◌, inl, inr, [], ◌∷◌, ◌++◌, ℕ_discrete,
  arith,
}
use adbd.Base.{In, Distinct, In-append, In-left, In-last, Distinct-append}
use adbd.Sockets.{Socket, Store}
use adbd.Sockets.Valid.{
  near_of, far_of, IsNear, IsFar, Sound, IsValid, near_sound, lingering_sound, far_sound,
}

-- The store `st'` is `st` with the pair of `p` and its remote socket `q` of the transport `t`.
pub record IsJoined (p q t : ℕ) (st st' : Store) : Type 0 where
  pub first : p ≡ st.fresh
  pub second : q ≡ st.fresh + 1
  pub next : st'.fresh ≡ st.fresh + 2
  pub near : IsNear q (st'.sockets p)
  pub far : IsFar p t (st'.sockets q)
  pub others : (r : ℕ) → r ≢ p → r ≢ q → st'.sockets r ≡ st.sockets r
  pub in_list : st'.socket_list ≡ st.socket_list ++ (p ∷ [])
  pub in_transport : st'.disconnects t ≡ st.disconnects t ++ (q ∷ [])
  pub other_transports : (t' : ℕ) → t' ≢ t → st'.disconnects t' ≡ st.disconnects t'

module _ (p q t : ℕ) (st st' : Store) (valid : IsValid st) (join : IsJoined p q t st st') where
  p_free : st.sockets p ≡ none
  p_free = valid.above p (omega (arith, join.first))

  q_free : st.sockets q ≡ none
  q_free = valid.above q (omega (arith, join.second))

  -- What stood in the store is neither of the two.
  kept_some : (r : ℕ) (s : Socket) → st.sockets r ≡ some s → st'.sockets r ≡ st.sockets r
  kept_some r s e =
      join.others r (λ k. let c = sym e ∙ ap st.sockets k ∙ p_free in cc)
        (λ k. let c = sym e ∙ ap st.sockets k ∙ q_free in cc)

  kept-IsNear : (r l : ℕ) → IsNear l (st.sockets r) → IsNear l (st'.sockets r)
  kept-IsNear r l n = subst (IsNear l) (sym (kept_some r _ n.same)) n

  kept_far : (r l k : ℕ) → IsFar l k (st.sockets r) → IsFar l k (st'.sockets r)
  kept_far r l k f = subst (IsFar l k) (sym (kept_some r _ f.same)) f

  kept_joined : (r k : ℕ) → In r (st.disconnects k) → In r (st'.disconnects k)
  kept_joined r k i = elim (ℕ_discrete k t) [
    | yes e ↦
        subst (λ j. In r (st'.disconnects j)) (sym e)
          (subst (In r) (sym join.in_transport)
            (In-left r (st.disconnects t) (q ∷ []) (subst (λ j. In r (st.disconnects j)) e i)))
    | no e ↦ subst (In r) (sym (join.other_transports k e)) i
  ]

  kept_Sound : (r : ℕ) (s : Socket) → Sound st r s → Sound st' r s
  kept_Sound r _ (near_sound n s l k f) = near_sound n s l k (kept_far l r k f)
  kept_Sound r _ (lingering_sound s) = lingering_sound s
  kept_Sound r _ (far_sound id l k n i) = far_sound id l k (kept-IsNear l r n) (kept_joined r k i)

  joins_transport : In q (st'.disconnects t)
  joins_transport = subst (In q) (sym join.in_transport) (In-last q (st.disconnects t))

  unpack : {x y : Socket} → some x ≡ some y → x ≡ y
  unpack h = cc

  Sound-joined : (r : ℕ) (s : Socket) → st'.sockets r ≡ some s → Sound st' r s
  Sound-joined r s e = elim (ℕ_discrete r p) [
    | yes rp ↦
        let same : near_of join.near.kind join.near.base (some q) ≡ s =
          unpack (sym join.near.same ∙ ap st'.sockets (sym rp) ∙ e) in
        subst (λ k. Sound st' k s) (sym rp)
          (subst (Sound st' p) same (near_sound join.near.kind join.near.base q t join.far))
    | no np ↦ elim (ℕ_discrete r q) [
      | yes rq ↦
          let same : far_of join.far.number (some p) t ≡ s =
            unpack (sym join.far.same ∙ ap st'.sockets (sym rq) ∙ e) in
          subst (λ k. Sound st' k s) (sym rq)
            (subst (Sound st' q) same (far_sound join.far.number p t join.near joins_transport))
      | no nq ↦ kept_Sound r s (valid.sound r s (sym (join.others r np nq) ∙ e))
    ]
  ]

  above_joined : (r : ℕ) → st'.fresh ≤ r → st'.sockets r ≡ none
  above_joined r h =
      join.others r (λ k. absurd (omega (arith, join.first, join.next)))
        (λ k. absurd (omega (arith, join.second, join.next)))
      ∙ valid.above r (omega (arith, join.next))

  not_listed : ¬ In p st.socket_list
  not_listed i = let (l, n) = valid.listed p i in let c = sym n.same ∙ p_free in cc

  listed_joined : (r : ℕ) → In r st'.socket_list → (l : ℕ) × IsNear l (st'.sockets r)
  listed_joined r i = elim (In-append r st.socket_list (p ∷ []) (subst (In r) join.in_list i)) [
    | inl a ↦ let (l, n) = valid.listed r a in (l, kept-IsNear r l n)
    | inr (inl e) ↦ (q, subst (λ k. IsNear q (st'.sockets k)) e join.near)
    | inr (inr e) ↦ absurd e
  ]

  not-In_transport : (k : ℕ) → ¬ In q (st.disconnects k)
  not-In_transport k i = let (l, f) = valid.joined k q i in let c = sym f.same ∙ q_free in cc

  joined_joined : (k r : ℕ) → In r (st'.disconnects k) → (l : ℕ) × IsFar l k (st'.sockets r)
  joined_joined k r i = elim (ℕ_discrete k t) [
    | no e ↦
        let (l, f) = valid.joined k r (subst (In r) (join.other_transports k e) i) in
        (l, kept_far r l k f)
    | yes e ↦
        elim (In-append r (st.disconnects t) (q ∷ [])
          (subst (In r) join.in_transport (subst (λ j. In r (st'.disconnects j)) e i))) [
            | inl a ↦
                let (l, f) = valid.joined k r (subst (λ j. In r (st.disconnects j)) (sym e) a) in
                (l, kept_far r l k f)
            | inr (inl c) ↦ (
              p,
              subst (λ j. IsFar p j (st'.sockets r)) (sym e)
                  (subst (λ j. IsFar p t (st'.sockets j)) c join.far),
            )
            | inr (inr c) ↦ absurd c
          ]
  ]

  pub Joined-IsValid : IsValid st'
  Joined-IsValid = record {
    above = above_joined;
    sound = Sound-joined;
    listed = listed_joined;
    once =
        subst Distinct (sym join.in_list) (Distinct-append p st.socket_list valid.once not_listed);
    joined = joined_joined;
    joined_once = λ k. elim (ℕ_discrete k t) [
      | yes e ↦
          subst (λ j. Distinct (st'.disconnects j)) (sym e)
            (subst Distinct (sym join.in_transport)
              (Distinct-append q (st.disconnects t) (valid.joined_once t) (not-In_transport t)))
      | no e ↦ subst Distinct (sym (join.other_transports k e)) (valid.joined_once k)
    ];
  }
