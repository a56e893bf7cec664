-- ===== src/Fdevent/Pending.antt =====
-- The list of pending fdevents of src/adbd/fdevent.c and the bit FDE_PENDING.
use adbd.Base.{
  Option, none, some, ℕ, ◌+◌, ◌-◌, ◌≡◌, refl, sym, ap, subst, ◌∙◌, Bool, true, false, not, List, [],
  ◌∷◌, arith, ◌==◌, if◌then◌else◌, ==_iff,
}
use adbd.Fdevent.{
  fdevent_update, settle, process_one, after_update, epoll_or_exit, fdevent_process, fdevent_set,
  Op, Epoll, Fdevent, Result, Loop, store_fde, ev_events, plist_remove, plist_enqueue, ok, exited,
  aborted,
}
use Prim.Native.Nat.{bit_and, bit_or}

abbrev pub bit : Bool → ℕ
bit true = 1
bit false = 0

abbrev pub count : ℕ → List ℕ → ℕ
count p [] = 0
count p (q ∷ qs) = bit (p == q) + count p qs

-- A node is in the list once when its bit is set, and not at all when it is not.
abbrev pub Tied : (E : Epoll) → Loop E.Kernel → Type 0
Tied E l = (p : ℕ) → count p l.list_pending ≡ bit (l.fdes p).pending

pub ==-refl : (p : ℕ) → (p == p) ≡ true
==-refl p = ground arith

count-enqueue : (p q : ℕ) (qs : List ℕ) → count q (plist_enqueue p qs) ≡ count q qs + bit (q == p)
unfolding plist_enqueue
count-enqueue p q [] = omega arith
count-enqueue p q (x ∷ qs) = omega (arith, count-enqueue p q qs)

pub count-remove : (p : ℕ) (qs : List ℕ) → count p (plist_remove p qs) ≡ count p qs - 1
unfolding plist_remove
count-remove p [] = omega arith
count-remove p (x ∷ qs) = go (p == x) refl (count-remove p qs)
  where
    go :
        (b : Bool)
        → (p == x) ≡ b
        → count p (plist_remove p qs) ≡ count p qs - 1
        → count p (if b then qs else (x ∷ plist_remove p qs)) ≡ bit b + count p qs - 1
    go true e ih = omega arith
    go false e ih = rw e (omega (arith, ih))

pub count-remove_other :
    (p q : ℕ) (qs : List ℕ) → (p == q) ≡ false → count q (plist_remove p qs) ≡ count q qs
unfolding plist_remove
count-remove_other p q [] h = refl
count-remove_other p q (x ∷ qs) h = go (p == x) refl (count-remove_other p q qs h)
  where
    go :
        (b : Bool)
        → (p == x) ≡ b
        → count q (plist_remove p qs) ≡ count q qs
        → count q (if b then qs else (x ∷ plist_remove p qs)) ≡ bit (q == x) + count q qs
    go true e ih = let other : (q == x) ≡ false = ground arith in rw other (omega arith)
    go false e ih = omega (arith, ih)

module _ (E : Epoll) where
  -- A new node for `p`, with the list changed at `p` alone.
  retie :
      (l : Loop E.Kernel) (p : ℕ) (f : Fdevent) (qs : List ℕ)
      → Tied E l
      → count p qs ≡ bit f.pending
      → ((q : ℕ) → (p == q) ≡ false → count q qs ≡ count q l.list_pending)
      → Tied E (record (store_fde l p f) { list_pending = qs })
  unfolding store_fde
  retie l p f qs t here there q = go (p == q) refl
    where
      go : (b : Bool) → (p == q) ≡ b → count q qs ≡ bit (if b then f else l.fdes q).pending
      go true e = subst (λ k. count k qs ≡ bit f.pending) ((==_iff p q).0 e) here
      go false e = there q e ∙ t q

  -- A new node with the same bit.
  pub restore :
      (l : Loop E.Kernel) (p : ℕ) (f : Fdevent)
      → Tied E l
      → f.pending ≡ (l.fdes p).pending
      → Tied E (store_fde l p f)
  unfolding store_fde
  restore l p f t h = retie l p f l.list_pending t (t p ∙ ap bit (sym h)) (λ q e. refl)

  process_one-Tied : (l : Loop E.Kernel) (p ev : ℕ) → Tied E l → Tied E (process_one E l p ev)
  unfolding process_one
  process_one-Tied l p ev t =
      go (bit_or (l.fdes p).events (ev_events ev) == 0) (l.fdes p).pending refl
    where
      f : Fdevent
      f = record (l.fdes p) { events = bit_or (l.fdes p).events (ev_events ev) }

      go :
          (b c : Bool)
          → (l.fdes p).pending ≡ c
          → Tied E (
              if b
              then store_fde l p
                  (record (l.fdes p) { events = bit_or (l.fdes p).events (ev_events ev) })
              else if c
              then store_fde l p
                  (record (l.fdes p) { events = bit_or (l.fdes p).events (ev_events ev) })
              else record (store_fde l p (record (l.fdes p) {
                events = bit_or (l.fdes p).events (ev_events ev);
                pending = true;
              })) { list_pending = plist_enqueue p l.list_pending })
      go true c e = restore l p _ t refl
      go false true e = restore l p _ t refl
      go false false e =
          retie l p _ _ t (count-enqueue p p l.list_pending ∙ rw (t p, e, ==-refl p) (omega arith))
            (λ q d.
              count-enqueue p q l.list_pending
              ∙ (let other : (q == p) ≡ false = ground arith in rw other (omega arith)))

  pub fdevent_process-Tied :
      (l : Loop E.Kernel) (es : List (ℕ × ℕ)) → Tied E l → Tied E (fdevent_process E l es)
  unfolding fdevent_process
  fdevent_process-Tied l [] t = t
  fdevent_process-Tied l ((p, ev) ∷ es) t =
      fdevent_process-Tied (process_one E l p ev) es (process_one-Tied l p ev t)

  -- A call that returned left the list tied.
  abbrev pub Returned : Result (Loop E.Kernel) → Type 0
  Returned (ok l) = Tied E l
  Returned exited = Unit
  Returned aborted = Unit

  settle-Tied : (l : Loop E.Kernel) (p m : ℕ) → Tied E l → Tied E (settle E l p m)
  unfolding settle
  settle-Tied l p m t = go (l.fdes p).pending refl (bit_and (l.fdes p).events (65535 - m) == 0)
    where
      go :
          (b : Bool)
          → (l.fdes p).pending ≡ b
          → (c : Bool)
          → Tied E (
              let f = record (l.fdes p) { mask = m } in
              if not b
              then store_fde l p f
              else if c
              then record (store_fde l p (record f { events = 0; pending = false })) {
                list_pending = plist_remove p l.list_pending;
              }
              else store_fde l p (record f { events = bit_and (l.fdes p).events (65535 - m) }))
      go false e c = restore l p _ t refl
      go true e true =
          retie l p _ _ t (count-remove p l.list_pending ∙ rw (t p, e) (omega arith))
            (λ q d. count-remove_other p q l.list_pending d)
      go true e false = restore l p _ t refl

  after_update-Returned :
      (p m : ℕ) (r : Result (Loop E.Kernel)) → Returned r → Returned (after_update E p m r)
  unfolding after_update
  after_update-Returned p m (ok l) t = settle-Tied l p m t
  after_update-Returned p m exited t = t
  after_update-Returned p m aborted t = t

  epoll_or_exit-Returned :
      (l : Loop E.Kernel) (fd ev : ℕ) (o : Option Op)
      → Tied E l
      → Returned (epoll_or_exit E l fd ev o)
  unfolding epoll_or_exit
  epoll_or_exit-Returned l fd ev none t = t
  epoll_or_exit-Returned l fd ev (some op) t = go (E.epoll_ctl l.kernel op fd ev)
    where
      go :
          (o : Option E.Kernel)
          → Returned (elim o [ none ↦ exited | some k ↦ ok (record l { kernel = k }) ])
      go none = tt
      go (some k) = t

  pub fdevent_set-Returned :
      (l : Loop E.Kernel) (p m : ℕ) → Tied E l → Returned (fdevent_set E l p m)
  unfolding fdevent_set fdevent_update
  fdevent_set-Returned l p m t = go ((l.fdes p).mask == bit_and m 255) (l.fdes p).active
    where
      go :
          (b c : Bool)
          → Returned (
              if b
              then ok l
              else after_update E p
                  (bit_and m 255)
                  (if c then fdevent_update E l p (bit_and m 255) else ok l))
      go true c = t
      go false false = after_update-Returned p (bit_and m 255) (ok l) t
      go false true =
          after_update-Returned p (bit_and m 255) _
            (epoll_or_exit-Returned _ _ _ _ (restore l p _ t refl))
