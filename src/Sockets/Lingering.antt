-- ===== src/Sockets/Lingering.antt =====
-- A local socket of src/adbd/sockets.c that waits for its queue to drain is closed for good.
use adbd.Base.{none, some, ℕ, suc, ◌≤◌, ◌≡◌, refl, sym, ap, subst, ◌∙◌, inl, inr, ℕ_discrete}
use adbd.Base.{In, Distinct}
use adbd.Sockets.{Socket, Store}
use adbd.Sockets.Valid.{
  lingering_of, IsNear, IsFar, Sound, IsValid, In-unlink, unlink-Distinct, near_sound,
  lingering_sound, far_sound,
}
use adbd.Sockets.Altered.{Safe, Safe-map, lingering-near-apart, lingering-far-apart}
use adbd.Sockets.Ops.{
  local_socket_destroy, drop_peer, finish_close, local_socket_close_locked, close_with, close,
}
use adbd.Sockets.Steps.{update_same, set_socket, Safe-step, load_run, modify_run}
use adbd.Sockets.Closing.{IsGone, destroy_Gone, after_set}

module _ (p : ℕ) (s : Socket) (st st' : Store) (valid : IsValid st)
    (here : st.sockets p ≡ some (lingering_of s)) (gone : IsGone p st st') where
  other-IsNear : (r l : ℕ) → IsNear l (st.sockets r) → IsNear l (st'.sockets r)
  other-IsNear r l n =
      subst (IsNear l)
        (sym (
          gone.others r
            (λ e. lingering-near-apart s here (subst (λ k. IsNear l (st.sockets k)) e n))))
        n

  other_far : (r l k : ℕ) → IsFar l k (st.sockets r) → IsFar l k (st'.sockets r)
  other_far r l k f =
      subst (IsFar l k)
        (sym (
          gone.others r
            (λ e. lingering-far-apart s here (subst (λ j. IsFar l k (st.sockets j)) e f))))
        f

  other_Sound : (r : ℕ) (x : Socket) → Sound st r x → Sound st' r x
  other_Sound r _ (near_sound n x q t f) = near_sound n x q t (other_far q r t f)
  other_Sound r _ (lingering_sound x) = lingering_sound x
  other_Sound r _ (far_sound id l t n i) =
      far_sound id l t (other-IsNear l r n) (subst (In r) (sym (gone.same_transports t)) i)

  Sound-gone : (r : ℕ) (x : Socket) → st'.sockets r ≡ some x → Sound st' r x
  Sound-gone r x e = elim (ℕ_discrete r p) [
    | no np ↦ other_Sound r x (valid.sound r x (sym (gone.others r np) ∙ e))
    | yes rp ↦ elim gone.near_gone [
      | inl none_left ↦ let c = sym e ∙ ap st'.sockets rp ∙ none_left in cc
      | inr (y, is) ↦
          let c : some (lingering_of y) ≡ some x = sym is ∙ ap st'.sockets (sym rp) ∙ e in
          let c' : lingering_of y ≡ x = cc in subst (Sound st' r) c' (lingering_sound y)
    ]
  ]

  lingering_gone : IsValid st'
  lingering_gone = record {
    above = λ r h.
        let old = valid.above r (subst (λ k. k ≤ r) gone.same_fresh h) in
        gone.others r (λ e. let c = sym old ∙ ap st.sockets e ∙ here in cc) ∙ old;
    sound = Sound-gone;
    listed = λ r i.
        let (q, n) =
          valid.listed r (In-unlink r p st.socket_list (subst (In r) gone.left_list i)) in
        (q, other-IsNear r q n);
    once = subst Distinct (sym gone.left_list) (unlink-Distinct p st.socket_list valid.once).0;
    joined = λ t r i.
        let (l, f) = valid.joined t r (subst (In r) (gone.same_transports t) i) in
        (l, other_far r l t f);
    joined_once = λ t. subst Distinct (sym (gone.same_transports t)) (valid.joined_once t);
  }

-- Its close.
pub lingering_close_IsValid :
    (f p : ℕ) (s : Socket) (st : Store)
    → IsValid st
    → st.sockets p ≡ some (lingering_of s)
    → Safe (λ _. IsValid) (close (suc f) p st)
unfolding close close_with local_socket_close_locked drop_peer finish_close
lingering_close_IsValid f p s st v e =
    Safe-step (λ _. IsValid) _ (load_run p x st e)
      (Safe-step (λ _. IsValid) _ (load_run p x st e)
        (Safe-step (λ _. IsValid) _ (modify_run p x (λ s. record s { peer = none }) st e)
          (Safe-step (λ _. IsValid) _
            (load_run p x (set_socket p x st) (update_same st.sockets p (some x)))
            (Safe-map (λ _. IsGone p (set_socket p x st)) (λ _. IsValid)
              (local_socket_destroy p (set_socket p x st))
              (destroy_Gone p x (set_socket p x st) (update_same st.sockets p (some x)) refl)
              (λ _ st' g. lingering_gone p s st st' v e (after_set p x st st' g))))))
  where
    x : Socket
    x = lingering_of s
