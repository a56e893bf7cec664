-- ===== src/Sockets/Altered.antt =====
-- Changes of single fields keep a store of src/adbd/sockets.c well-formed, and what a run that can
-- neither meet a dead pointer nor run short of fuel ends with.
use adbd.Base.{Option, none, some, ℕ, ◌≤◌, ◌≡◌, refl, sym, ap, subst, ◌∙◌, ◌⊎◌, inl, inr}
use adbd.Base.{In, Distinct}
use adbd.Sockets.{Socket, Store, Run, Cmd, and_then, ok, exited, fault, out_of_fuel}
use adbd.Sockets.Valid.{
  near_peer, near-far-apart, near_of, lingering_of, IsNear, IsFar, Sound, IsValid, peer_at,
  near_sound, lingering_sound, far_sound,
}

-- The result of a run that does not fail: a value and a store with `Q`, or the end of the process.
abbrev pub Safe {ℓ} : {A : Type ℓ} → (A → Store → Type 0) → Run A → Type 0
Safe Q (ok a st) = Q a st
Safe Q (exited st) = Unit
Safe Q fault = ⊥
Safe Q out_of_fuel = ⊥

pub Safe-then {ℓ κ} :
    {A : Type ℓ} {B : Type κ} (Q : A → Store → Type 0) (R : B → Store → Type 0) (r : Run A)
    (k : A → Cmd B)
    → Safe Q r
    → ((a : A) (st : Store) → Q a st → Safe R (k a st))
    → Safe R (and_then r k)
Safe-then Q R (ok a st) k h next = next a st h
Safe-then Q R (exited st) k h next = tt
Safe-then Q R fault k h next = h
Safe-then Q R out_of_fuel k h next = h

pub Safe-map {ℓ} :
    {A : Type ℓ} (Q R : A → Store → Type 0) (r : Run A)
    → Safe Q r
    → ((a : A) (st : Store) → Q a st → R a st)
    → Safe R r
Safe-map Q R (ok a st) h f = f a st h
Safe-map Q R (exited st) h f = tt
Safe-map Q R fault h f = h
Safe-map Q R out_of_fuel h f = h

-- A socket before and after: of one kind with one peer, or waiting for its queue to drain.
pub data Alike (o o' : Option Socket) : Type 0 where
  both_near : (q : ℕ) → IsNear q o → IsNear q o' → Alike o o'
  both_lingering :
      (s s' : Socket) → o ≡ some (lingering_of s) → o' ≡ some (lingering_of s') → Alike o o'

pub record IsAltered (st st' : Store) : Type 0 where
  pub each : (r : ℕ) → (st'.sockets r ≡ st.sockets r) ⊎ Alike (st.sockets r) (st'.sockets r)
  pub same_fresh : st'.fresh ≡ st.fresh
  pub same_list : st'.socket_list ≡ st.socket_list
  pub same_transports : (t : ℕ) → st'.disconnects t ≡ st.disconnects t

pub lingering-near-apart :
    {o : Option Socket} {q : ℕ} (s : Socket) → o ≡ some (lingering_of s) → IsNear q o → ⊥
lingering-near-apart s e n = let c = ap peer_at (sym e ∙ n.same) in cc

pub lingering-far-apart :
    {o : Option Socket} {l t : ℕ} (s : Socket) → o ≡ some (lingering_of s) → IsFar l t o → ⊥
lingering-far-apart s e f = let c = ap peer_at (sym e ∙ f.same) in cc

module _ {st st' : Store} (a : IsAltered st st') where
  pub altered-IsNear : (p q : ℕ) → IsNear q (st.sockets p) → IsNear q (st'.sockets p)
  altered-IsNear p q n = elim (a.each p) [
    | inl e ↦ subst (IsNear q) (sym e) n
    | inr (both_near q' b c) ↦ subst (λ k. IsNear k (st'.sockets p)) (near_peer b n) c
    | inr (both_lingering s s' b c) ↦ absurd (lingering-near-apart s b n)
  ]

  pub altered-IsFar : (p l t : ℕ) → IsFar l t (st.sockets p) → IsFar l t (st'.sockets p)
  altered-IsFar p l t f = elim (a.each p) [
    | inl e ↦ subst (IsFar l t) (sym e) f
    | inr (both_near q' b c) ↦ absurd (near-far-apart b f)
    | inr (both_lingering s s' b c) ↦ absurd (lingering-far-apart s b f)
  ]

  altered-In : (t r : ℕ) → In r (st.disconnects t) → In r (st'.disconnects t)
  altered-In t r i = subst (In r) (sym (a.same_transports t)) i

  altered-Sound : (p : ℕ) (s : Socket) → Sound st p s → Sound st' p s
  altered-Sound p _ (near_sound n s q t f) = near_sound n s q t (altered-IsFar q p t f)
  altered-Sound p _ (lingering_sound s) = lingering_sound s
  altered-Sound p _ (far_sound id l t n i) =
      far_sound id l t (altered-IsNear l p n) (altered-In t p i)

  near_after :
      (valid : IsValid st) (p q : ℕ) (s : Socket)
      → IsNear q (st.sockets p)
      → IsNear q (st'.sockets p)
      → st'.sockets p ≡ some s
      → Sound st' p s
  near_after valid p q s b c e =
      let c' : near_of c.kind c.base (some q) ≡ s = unpack (sym c.same ∙ e) in
      let (t, f) = its_far (valid.sound p (near_of b.kind b.base (some q)) b.same) refl in
      subst (Sound st' p) c' (near_sound c.kind c.base q t (altered-IsFar q p t f))
    where
      unpack : {x y : Socket} → some x ≡ some y → x ≡ y
      unpack h = cc

      its_far :
          {x : Socket}
          → Sound st p x
          → x ≡ near_of b.kind b.base (some q)
          → (t : ℕ) × IsFar p t (st.sockets q)
      its_far (near_sound n s q' t f) h =
          let k : some q' ≡ some q = ap (λ (z : Socket). z.peer) h in
          let k' : q' ≡ q = cc in (t, subst (λ j. IsFar p t (st.sockets j)) k' f)
      its_far (lingering_sound s) h = let k : none ≡ some q = ap (λ (z : Socket). z.peer) h in cc
      its_far (far_sound id l t n i) h = absurd (
          near-far-apart (record { kind = b.kind; base = b.base; same = ap some h })
            (record { number = id; same = refl }))

  Sound-altered : IsValid st → (p : ℕ) (s : Socket) → st'.sockets p ≡ some s → Sound st' p s
  Sound-altered valid p s e = elim (a.each p) [
    | inl same ↦ altered-Sound p s (valid.sound p s (sym same ∙ e))
    | inr (both_near q b c) ↦ near_after valid p q s b c e
    | inr (both_lingering x x' b c) ↦
        let k : some (lingering_of x') ≡ some s = sym c ∙ e in
        let k' : lingering_of x' ≡ s = cc in subst (Sound st' p) k' (lingering_sound x')
  ]

  pub Altered-IsValid : IsValid st → IsValid st'
  Altered-IsValid valid = record {
    above = λ p h. stays_none p (valid.above p (subst (λ k. k ≤ p) a.same_fresh h));
    sound = Sound-altered valid;
    listed = λ p i.
        let (q, n) = valid.listed p (subst (In p) a.same_list i) in (q, altered-IsNear p q n);
    once = subst Distinct (sym a.same_list) valid.once;
    joined = λ t p i.
        let (l, f) = valid.joined t p (subst (In p) (a.same_transports t) i) in
        (l, altered-IsFar p l t f);
    joined_once = λ t. subst Distinct (sym (a.same_transports t)) (valid.joined_once t);
  }
    where
      stays_none : (p : ℕ) → st.sockets p ≡ none → st'.sockets p ≡ none
      stays_none p h = elim (a.each p) [
        | inl same ↦ same ∙ h
        | inr (both_near q b c) ↦ let k = sym h ∙ b.same in cc
        | inr (both_lingering x x' b c) ↦ let k = sym h ∙ b in cc
      ]
