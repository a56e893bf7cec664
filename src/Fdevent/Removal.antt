-- ===== src/Fdevent/Removal.antt =====
-- A pending fdevent out of its list: `fdevent_remove`, and the inner loop of `fdevent_loop`
-- (src/adbd/fdevent.c).
use adbd.Base.{
  Option, none, some, ℕ, suc, ◌+◌, ◌≡◌, refl, subst, ◌∙◌, Bool, true, false, not, List, [], ◌∷◌,
  arith, ltb, ◌==◌, if◌then◌else◌, ==_iff,
}
use adbd.Fdevent.{
  same_node, call_fdfunc, fdevent_unregister, fdevent_plist_dequeue, fdevent_disconnect, cleared,
  fdevent_remove, fde_dont_close, Epoll, Fdevent, Result, Loop, store_fde, plist_remove, ctl_del,
  ok, exited, aborted,
}
use Prim.Native.Nat.{bit_and}
use adbd.Fdevent.Pending.{bit, count, Tied, ==-refl, count-remove, count-remove_other, Returned}

module _ (E : Epoll) where
  -- What holds of a node that is out of the list while its bit is still there.
  abbrev Loose : ℕ → Loop E.Kernel → Type 0
  Loose p l =
      (count p l.list_pending ≡ 0)
      × ((q : ℕ) → (p == q) ≡ false → count q l.list_pending ≡ bit (l.fdes q).pending)

  abbrev LooseResult : ℕ → Result (Loop E.Kernel) → Type 0
  LooseResult p (ok l) = Loose p l
  LooseResult p exited = Unit
  LooseResult p aborted = Unit

  abbrev unlinked : ℕ → Loop E.Kernel → Bool → Loop E.Kernel
  unlinked p l b = if b then record l { list_pending = plist_remove p l.list_pending } else l

  unlinked-Loose :
      (p : ℕ) (l : Loop E.Kernel) (b : Bool)
      → (l.fdes p).pending ≡ b
      → Tied E l
      → Loose p (unlinked p l b)
  unlinked-Loose p l true e t = (
    count-remove p l.list_pending ∙ rw (t p, e) (omega arith),
    λ q d. count-remove_other p q l.list_pending d ∙ t q,
  )
  unlinked-Loose p l false e t = (t p ∙ rw e refl, λ q d. t q)

  fdevent_disconnect-Loose :
      (p : ℕ) (l : Loop E.Kernel) → Loose p l → Loose p (fdevent_disconnect E l p)
  unfolding fdevent_disconnect
  fdevent_disconnect-Loose p l h = go (E.epoll_ctl l.kernel ctl_del (l.fdes p).fd 0)
    where
      go : (o : Option E.Kernel) → Loose p (elim o [ none ↦ l | some k ↦ record l { kernel = k } ])
      go none = h
      go (some k) = h

  fdevent_unregister-Loose :
      (p : ℕ) (l : Loop E.Kernel) → Loose p l → LooseResult p (fdevent_unregister E l p)
  unfolding fdevent_unregister
  fdevent_unregister-Loose p l h =
      go (not (ltb (l.fdes p).fd l.fd_table_max)) (not (same_node E (l.fd_table (l.fdes p).fd) p))
    where
      go :
          (b c : Bool)
          → LooseResult p (
              if b
              then aborted
              else if c
              then aborted
              else ok (record l {
                fd_table = λ n. if n == (l.fdes p).fd then none else l.fd_table n;
                closed =
                    if bit_and (l.fdes p).mask fde_dont_close == 0
                    then (l.fdes p).fd ∷ l.closed
                    else l.closed;
              }))
      go true c = tt
      go false true = tt
      go false false = h

  cleared-Returned :
      (p : ℕ) (r : Result (Loop E.Kernel)) → LooseResult p r → Returned E (cleared E p r)
  unfolding cleared store_fde
  cleared-Returned p (ok l) (h, t) = λ q. go q (p == q) refl
    where
      go :
          (q : ℕ) (b : Bool)
          → (p == q) ≡ b
          → count q l.list_pending
            ≡ bit
                (if b
                  then record (l.fdes p) {
                    mask = 0;
                    active = false;
                    pending = false;
                    created = false;
                    events = 0;
                  }
                  else l.fdes q).pending
      go q true e = subst (λ k. count k l.list_pending ≡ 0) ((==_iff p q).0 e) h
      go q false e = t q e
  cleared-Returned p exited h = tt
  cleared-Returned p aborted h = tt

  pub fdevent_remove-Returned :
      (l : Loop E.Kernel) (p : ℕ) → Tied E l → Returned E (fdevent_remove E l p)
  unfolding fdevent_remove
  fdevent_remove-Returned l p t = cleared-Returned p _ (go (l.fdes p).active)
    where
      free : Loose p (unlinked p l (l.fdes p).pending)
      free = unlinked-Loose p l (l.fdes p).pending refl t

      go :
          (b : Bool)
          → LooseResult p (
              if b
              then fdevent_unregister E (fdevent_disconnect E (unlinked p l (l.fdes p).pending) p) p
              else ok (unlinked p l (l.fdes p).pending))
      go true =
          fdevent_unregister-Loose p (fdevent_disconnect E (unlinked p l (l.fdes p).pending) p)
            (fdevent_disconnect-Loose p (unlinked p l (l.fdes p).pending) free)
      go false = free

  -- A round of the inner loop: the first pending node, and the call that is made for it.
  abbrev pub Dispatched : Loop E.Kernel → Option (ℕ × Loop E.Kernel) → Type 0
  Dispatched l none = l.list_pending ≡ []
  Dispatched l (some (p, l1)) =
      Tied E (call_fdfunc E l1 p).0 × ((call_fdfunc E l1 p).1 ≡ some (p, (l.fdes p).events))

  -- Behind the head of the list: the bit is set, and the rest is tied but for it.
  call_fdfunc-Called :
      (l : Loop E.Kernel) (p : ℕ)
      → (l.fdes p).pending ≡ true
      → Loose p l
      → Tied E (call_fdfunc E l p).0 × ((call_fdfunc E l p).1 ≡ some (p, (l.fdes p).events))
  unfolding call_fdfunc store_fde
  call_fdfunc-Called l p set (h, t) = go (l.fdes p).pending set
    where
      f : Fdevent
      f = record (l.fdes p) { events = 0 }

      l1 : Loop E.Kernel
      l1 = store_fde l p f

      tied : Tied E (store_fde l1 p (record f { pending = false }))
      tied q = at q (p == q) refl
        where
          at :
              (q : ℕ) (b : Bool)
              → (p == q) ≡ b
              → count q l.list_pending
                ≡ bit
                    (if b then record f { pending = false } else if b then f else l.fdes q).pending
          at q true e = subst (λ k. count k l.list_pending ≡ 0) ((==_iff p q).0 e) h
          at q false e = t q e

      go :
          (b : Bool)
          → b ≡ true
          → (let r : Loop E.Kernel × Option (ℕ × ℕ) =
                if not b
                then (l1, none)
                else (store_fde l1 p (record f { pending = false }), some (p, (l.fdes p).events)) in
              Tied E r.0 × (r.1 ≡ some (p, (l.fdes p).events)))
      go true e = (tied, refl)
      go false e = absurd (ground arith)

  pub dispatch-Dispatched :
      (l : Loop E.Kernel) → Tied E l → Dispatched l (fdevent_plist_dequeue E l)
  unfolding fdevent_plist_dequeue
  dispatch-Dispatched l t = go l.list_pending refl
    where
      go :
          (qs : List ℕ)
          → l.list_pending ≡ qs
          → Dispatched l
              (elim qs [ [] ↦ none | p ∷ rest ↦ some (p, record l { list_pending = rest }) ])
      go [] e = e
      go (p ∷ rest) e = call_fdfunc-Called (record l { list_pending = rest }) p set (out, others)
        where
          there : (q : ℕ) → bit (q == p) + count q rest ≡ bit (l.fdes q).pending
          there q = subst (λ k. count q k ≡ bit (l.fdes q).pending) e (t q)

          here : suc (count p rest) ≡ bit (l.fdes p).pending
          here =
              let at_p : 1 + count p rest ≡ bit (l.fdes p).pending =
                subst (λ b. bit b + count p rest ≡ bit (l.fdes p).pending) (==-refl p) (there p) in
              omega (arith, at_p)

          is_set : (b : Bool) → suc (count p rest) ≡ bit b → (b ≡ true) × (count p rest ≡ 0)
          is_set true h = (refl, omega arith)
          is_set false h = absurd (omega arith)

          set : (l.fdes p).pending ≡ true
          set = (is_set (l.fdes p).pending here).0

          out : count p rest ≡ 0
          out = (is_set (l.fdes p).pending here).1

          others : (q : ℕ) → (p == q) ≡ false → count q rest ≡ bit (l.fdes q).pending
          others q d =
              let other : (q == p) ≡ false = ground arith in
              let at_q : 0 + count q rest ≡ bit (l.fdes q).pending =
                subst (λ b. bit b + count q rest ≡ bit (l.fdes q).pending) other (there q) in
              omega (arith, at_q)
