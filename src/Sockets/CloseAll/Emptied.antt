-- ===== src/Sockets/CloseAll/Emptied.antt =====
-- `close_all_sockets` of src/adbd/sockets.c ends, and leaves no socket of the transport.
use adbd.Base.{
  Option, none, some, ℕ, zero, suc, ◌<◌, ◌≡◌, ◌≢◌, refl, sym, ap, ◌∙◌, subst, inl, inr, Bool, true,
  false, List, [], ◌∷◌, In, ◌==◌, ==_iff, arith, length, if◌then◌else◌,
}
use adbd.Sockets.{Cmd, ◌>>◌, pure, Store, unlink}
use adbd.Sockets.Valid.{
  local, IsNear, IsFar, IsValid, far_fields, near-far-apart, In-unlink, unlink-In, unlink-Distinct,
}
use adbd.Sockets.Cut.{IsCut, Cut-IsValid}
use adbd.Sockets.Pairs.{near_pair_with}
use adbd.Sockets.Serving.{its_far, apart_ends}
use adbd.Sockets.Altered.{Safe, Safe-then, Safe-map}
use adbd.Sockets.Steps.{Safe-step}
use adbd.Sockets.Ops.{local_socket_close_locked, close, close_with}
use adbd.Sockets.CloseAll.{close_all_loop, close_all_sockets}
use adbd.Sockets.CloseAll.Search.{IsFree, IsLocal, local-IsNear, Searched, find_belonging_run}

length-unlink : (p : ℕ) (xs : List ℕ) → In p xs → length xs ≡ suc (length (unlink p xs))
unfolding unlink
length-unlink p [] i = absurd i
length-unlink p (x ∷ xs) (inl e) = rw ((==_iff p x).1 (sym e)) refl
length-unlink p (x ∷ xs) (inr i) = go (p == x) (length-unlink p xs i)
  where
    go :
        (b : Bool)
        → length xs ≡ suc (length (unlink p xs))
        → suc (length xs) ≡ suc (length (if b then xs else x ∷ unlink p xs))
    go true h = refl
    go false h = ap suc h

-- Every listed socket is a local one.
abbrev pub AllLocal : Store → Type 0
AllLocal st = (p : ℕ) → In p st.socket_list → IsLocal (st.sockets p)

-- What the closing leaves: a well-formed store with no listed socket of the transport, and every
-- listed socket of another one listed as before, with its object.
pub record IsEmptied (t : ℕ) (st st' : Store) : Type 0 where
  pub valid : IsValid st'
  pub free : (r : ℕ) → In r st'.socket_list → IsFree t r st'
  pub stays :
      (r : ℕ)
      → In r st.socket_list
      → IsFree t r st
      → In r st'.socket_list × (st'.sockets r ≡ st.sockets r)

module _ (t p q t' : ℕ) (st st' : Store) (valid : IsValid st) (near : IsNear q (st.sockets p))
    (far : IsFar p t' (st.sockets q)) (cut : IsCut p q t' st st') where
  -- A listed socket is no remote one, and a listed socket other than `p` is as it was.
  not_far : (r : ℕ) → IsLocal (st.sockets r) → r ≢ q
  not_far r l e =
      near-far-apart (local-IsNear l) (subst (λ j. IsFar p t' (st.sockets j)) (sym e) far)

  still_there : (r : ℕ) → IsLocal (st.sockets r) → r ≢ p → st'.sockets r ≡ st.sockets r
  still_there r l np = cut.others r np (not_far r l)

  cut-AllLocal : AllLocal st → AllLocal st'
  cut-AllLocal all r i =
      let i' = subst (In r) cut.left_list i in
      let j = In-unlink r p st.socket_list i' in
      let np : r ≢ p = λ e.
        (unlink-Distinct p st.socket_list valid.once).1
          (subst (λ k. In k (unlink p st.socket_list)) e i') in
      let l = all r j in record { peer = l.peer; base = l.base; same = still_there r l np ∙ l.same }

  cut_keeps-IsFree : (r : ℕ) → IsLocal (st.sockets r) → r ≢ p → IsFree t r st → IsFree t r st'
  cut_keeps-IsFree r l np h = record {
    own = λ s e. h.own s (sym (still_there r l np) ∙ e);
    its_peer = λ k u n f.
        let n' = subst (IsNear k) (still_there r l np) n in
        let (u', f') = its_far valid r k n' in
        let same : st'.sockets k ≡ st.sockets k =
          cut.others k (λ e. near-far-apart near (subst (λ j. IsFar r u' (st.sockets j)) e f'))
            (λ e. np (far_fields (subst (λ j. IsFar r u' (st.sockets j)) e f') far).0) in
        h.its_peer k u n' (subst (IsFar r u) same f);
  }

  after_cut :
      (st'' : Store) → AllLocal st → (¬ IsFree t p st) → IsEmptied t st' st'' → IsEmptied t st st''
  after_cut st'' all found h = record {
    valid = h.valid;
    free = h.free;
    stays = λ r i free.
        let np : r ≢ p = λ e. found (subst (λ j. IsFree t j st) e free) in
        let i' = subst (In r) (sym cut.left_list) (unlink-In r p st.socket_list np i) in
        let (j, same) = h.stays r i' (cut_keeps-IsFree r (all r i) np free) in
        (j, same ∙ still_there r (all r i) np);
  }

-- One close of the loop.
close_one :
    (p t' : ℕ) (st : Store) (valid : IsValid st) (l : IsLocal (st.sockets p))
    → IsFar p t' (st.sockets l.peer)
    → Safe (λ _. IsCut p l.peer t' st) (local_socket_close_locked (close 3) p st)
unfolding close_with
close_one p t' st valid l far =
    near_pair_with 2 p l.peer far.number t' l.base st
      (apart_ends valid p l.peer t' (local-IsNear l) far) far.same local l.same

-- The rest of a round of the loop, when what the later rounds do is known.
after_search :
    (f t : ℕ) (st : Store)
    → IsValid st
    → AllLocal st
    → length st.socket_list < suc f
    → ((st' : Store)
        → IsValid st'
        → AllLocal st'
        → length st'.socket_list < f
        → Safe (λ _. IsEmptied t st') (close_all_loop f t st'))
    → (o : Option ℕ) → Searched t st.socket_list st o
    → Safe
        (λ _. IsEmptied t st)
        ((elim o as (λ _. Cmd (Unit {0})) [
          | none ↦ pure tt
          | some p ↦ local_socket_close_locked (close 3) p >> close_all_loop f t
        ])
          st)
after_search f t st v all h later none free = record {
  valid = v;
  free = free;
  stays = λ r i free'. (i, refl);
}
after_search f t st v all h later (some p) (i, found) =
    let l = all p i in
    let near = local-IsNear l in
    let (t', far) = its_far v p l.peer near in
    Safe-then (λ _. IsCut p l.peer t' st) (λ _. IsEmptied t st)
      (local_socket_close_locked (close 3) p st) (λ _. close_all_loop f t)
      (close_one p t' st v l far)
      (λ _ st' cut.
        Safe-map (λ _. IsEmptied t st') (λ _. IsEmptied t st) (close_all_loop f t st')
          (later st' (Cut-IsValid p l.peer t' st st' v near far cut)
            (cut-AllLocal t p l.peer t' st st' v near far cut all)
            (omega (arith, h, length-unlink p st.socket_list i, ap length cut.left_list)))
          (λ _ st'' e. after_cut t p l.peer t' st st' v near far cut st'' all found e))

close_all_loop-IsEmptied :
    (f t : ℕ) (st : Store)
    → IsValid st
    → AllLocal st
    → length st.socket_list < f
    → Safe (λ _. IsEmptied t st) (close_all_loop f t st)
unfolding close_all_loop
close_all_loop-IsEmptied zero t st v all h = absurd (omega arith)
close_all_loop-IsEmptied (suc f) t st v all h =
    let (o, run, searched) = find_belonging_run t st v st.socket_list all in
    Safe-step (λ _. IsEmptied t st) _ run
      (after_search f t st v all h (close_all_loop-IsEmptied f t) o searched)

-- From every well-formed store whose listed sockets are local ones: unless a socket that ends the
-- process is closed, the loop of `close_all_sockets` ends after at most one round for each listed
-- socket, without meeting a dead pointer; the store is well-formed; no socket that is still listed
-- is one of the transport or has a remote socket of it; and each listed socket that was neither is
-- still listed, its object unchanged.
pub close_all_sockets-IsEmptied :
    (t : ℕ) (st : Store)
    → IsValid st
    → AllLocal st
    → Safe (λ _. IsEmptied t st) (close_all_sockets t st)
unfolding close_all_sockets
close_all_sockets-IsEmptied t st v all =
    close_all_loop-IsEmptied (suc (length st.socket_list)) t st v all (omega arith)
