-- ===== src/Sockets/Steps.antt =====
-- Single steps of the commands on a store (src/adbd/sockets.c), as equations that a longer run takes
-- one after the other.
use adbd.Base.{
  some, ℕ, ◌≡◌, refl, sym, subst, ◌∙◌, ◌≢◌, inl, inr, true, false, ◌==◌, ==_iff, Bool-cases,
}
use adbd.Sockets.{
  Socket, Store, Run, Cmd, and_then, update, load, store, modify, unlink, remove_socket, ok,
}
use adbd.Sockets.Altered.{Safe}

module _ {ℓ} {A : Type ℓ} (f : ℕ → A) where
  pub update_same : (p : ℕ) (v : A) → update f p v p ≡ v
  update_same p v = rw ((==_iff p p).1 refl) refl

  pub update_other : (p : ℕ) (v : A) (r : ℕ) → r ≢ p → update f p v r ≡ f r
  update_other p v r ne = elim (Bool-cases (p == r)) [
    | inl t ↦ absurd (ne (sym ((==_iff p r).0 t)))
    | inr t ↦ rw t refl
  ]

pub update_twice {ℓ} :
    {A : Type ℓ} (f : ℕ → A) (p : ℕ) (v w : A) (r : ℕ) → r ≢ p → update (update f p v) p w r ≡ f r
update_twice f p v w r ne = update_other (update f p v) p w r ne ∙ update_other f p v r ne

-- `*p=s`
abbrev pub set_socket : ℕ → Socket → Store → Store
set_socket p s st = record st { sockets = update st.sockets p (some s) }

pub Safe-step {ℓ κ} :
    {A : Type ℓ} {B : Type κ} (R : B → Store → Type 0) (k : A → Cmd B) {r : Run A} {a : A}
    {st : Store}
    → r ≡ ok a st
    → Safe R (k a st)
    → Safe R (and_then r k)
Safe-step R k e h = subst (λ r. Safe R (and_then r k)) (sym e) h

pub load_run : (p : ℕ) (s : Socket) (st : Store) → st.sockets p ≡ some s → load p st ≡ ok s st
unfolding load
load_run p s st e = rw e refl

pub modify_run :
    (p : ℕ) (s : Socket) (f : Socket → Socket) (st : Store)
    → st.sockets p ≡ some s
    → modify p f st ≡ ok tt (set_socket p (f s) st)
unfolding modify load store
modify_run p s f st e = rw e refl

pub remove_run :
    (p : ℕ) (s : Socket) (st : Store)
    → st.sockets p ≡ some s
    → s.linked ≡ true
    → remove_socket p st
      ≡ ok tt (record (set_socket p (record s { linked = false; id = 0 }) st) {
        socket_list = unlink p st.socket_list;
        closing_list = unlink p st.closing_list;
      })
unfolding remove_socket load
remove_run p s st e l = rw (e, l) refl
