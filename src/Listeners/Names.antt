-- ===== src/Listeners/Names.antt =====
-- `install_listener` (src/adbd/adb.c): a name has one listener.
use adbd.Base.{
  Option, none, some, ℕ, ◌+◌, ◌≤◌, ◌≡◌, refl, sym, ap, subst, Bool, true, false, ◌&&◌, List, [],
  ◌∷◌, ◌++◌, arith, Bytes, ◌==◌, if◌then◌else◌, ==_iff,
}
use adbd.Listeners.{
  Listener, is_star, Status, rebind, bind_new, install_listener, status_ok, internal_error,
  cannot_bind, cannot_rebind,
}
use adbd.Transport.{bytes_eq}

bytes_eq_sound : (a b : Bytes) → bytes_eq a b ≡ true → a ≡ b
unfolding bytes_eq
bytes_eq_sound [] [] h = refl
bytes_eq_sound [] (y ∷ b) h = absurd (ground arith)
bytes_eq_sound (x ∷ a) [] h = absurd (ground arith)
bytes_eq_sound (x ∷ a) (y ∷ b) h = go (x == y) refl h (bytes_eq_sound a b)
  where
    go :
        (e : Bool)
        → (x == y) ≡ e
        → (e && bytes_eq a b) ≡ true
        → (bytes_eq a b ≡ true → a ≡ b)
        → (x ∷ a) ≡ (y ∷ b)
    go true e h' ih = rw ((==_iff x y).0 e, ih h') refl
    go false e h' ih = absurd (ground arith)

bytes_eq_refl : (a : Bytes) → bytes_eq a a ≡ true
unfolding bytes_eq
bytes_eq_refl [] = refl
bytes_eq_refl (x ∷ a) = rw (bytes_eq, (==_iff x x).1 refl) (bytes_eq_refl a)

abbrev pub one_if : Bool → ℕ
one_if true = 1
one_if false = 0

-- How many listeners have a name.
abbrev pub occurs : Bytes → List Listener → ℕ
occurs name [] = 0
occurs name (l ∷ ls) = one_if (bytes_eq name l.local_name) + occurs name ls

-- What the first listener of a name connects to, and its transport.
abbrev pub target_of : Bytes → List Listener → Option (Bytes × Option ℕ)
target_of name [] = none
target_of name (l ∷ ls) = elim (bytes_eq name l.local_name) [
  | true ↦ some (l.connect_to, l.transport)
  | false ↦ target_of name ls
]

-- Success means that the name leads to the target; failure, that nothing has changed.
abbrev pub Settles : Bytes → Bytes → Option ℕ → List Listener → List Listener × Status → Type 0
Settles name connect_to transport ls (ls', status_ok) =
    target_of name ls' ≡ some (connect_to, transport)
Settles name connect_to transport ls (ls', internal_error) = ls' ≡ ls
Settles name connect_to transport ls (ls', cannot_bind) = ls' ≡ ls
Settles name connect_to transport ls (ls', cannot_rebind) = ls' ≡ ls

abbrev pub Distinct : List Listener → Type 0
Distinct ls = (name : Bytes) → occurs name ls ≤ 1

abbrev Rebound : Bytes → Bytes → Option ℕ → List Listener → Option (List Listener × Status) → Type 0
Rebound name connect_to transport ls none = occurs name ls ≡ 0
Rebound name connect_to transport ls (some r) =
    ((n : Bytes) → occurs n r.0 ≡ occurs n ls) × Settles name connect_to transport ls r

module _ (name connect_to : Bytes) (transport : Option ℕ) (no_rebind : Bool) where
  Settles-cons :
      (l : Listener) (ls : List Listener) (r : List Listener × Status)
      → bytes_eq name l.local_name ≡ false
      → Settles name connect_to transport ls r
      → Settles name connect_to transport (l ∷ ls) (l ∷ r.0, r.1)
  Settles-cons l ls (ls', status_ok) e h = rw (target_of, e) h
  Settles-cons l ls (ls', internal_error) e h = ap (◌∷◌ l) h
  Settles-cons l ls (ls', cannot_bind) e h = ap (◌∷◌ l) h
  Settles-cons l ls (ls', cannot_rebind) e h = ap (◌∷◌ l) h

  rebind-Rebound :
      (ls : List Listener)
      → Rebound name connect_to transport ls (rebind name connect_to transport no_rebind ls)
  unfolding rebind
  rebind-Rebound [] = refl
  rebind-Rebound (l ∷ ls) =
      go (bytes_eq name l.local_name) refl (is_star l.connect_to) no_rebind (rebind-Rebound ls)
    where
      below :
          (o : Option (List Listener × Status))
          → bytes_eq name l.local_name ≡ false
          → Rebound name connect_to transport ls o
          → Rebound name connect_to transport
              (l ∷ ls)
              (elim o [ none ↦ none | some r ↦ some (l ∷ r.0, r.1) ])
      below none e h = rw e (omega (arith, h))
      below (some r) e (h, s) =
          ((λ n. ap (λ k. one_if (bytes_eq n l.local_name) + k) (h n)), Settles-cons l ls r e s)

      go :
          (b : Bool)
          → bytes_eq name l.local_name ≡ b
          → (c d : Bool)
          → Rebound name connect_to transport ls (rebind name connect_to transport no_rebind ls)
          → Rebound name connect_to transport (l ∷ ls) (elim b [
            | true ↦
                if c
                then some (l ∷ ls, internal_error)
                else if d
                then some (l ∷ ls, cannot_rebind)
                else some
                    (record l { connect_to = connect_to; transport = transport } ∷ ls, status_ok)
            | false ↦ elim (rebind name connect_to transport no_rebind ls) [
              | none ↦ none
              | some r ↦ some (l ∷ r.0, r.1)
            ]
          ])
      go true e true d ih = ((λ n. refl), refl)
      go true e false true ih = ((λ n. refl), refl)
      go true e false false ih = ((λ n. refl), rw (target_of, e) refl)
      go false e c d ih = below (rebind name connect_to transport no_rebind ls) e ih

occurs-append :
    (n : Bytes) (ls ms : List Listener) → occurs n (ls ++ ms) ≡ occurs n ls + occurs n ms
occurs-append n [] ms = omega arith
occurs-append n (l ∷ ls) ms = omega (arith, occurs-append n ls ms)

target_of-append :
    (name : Bytes) (ls : List Listener) (l : Listener)
    → occurs name ls ≡ 0
    → bytes_eq name l.local_name ≡ true
    → target_of name (ls ++ (l ∷ [])) ≡ some (l.connect_to, l.transport)
target_of-append name [] l h e = rw (target_of, e) refl
target_of-append name (m ∷ ls) l h e =
    go (bytes_eq name m.local_name) h (λ k. target_of-append name ls l k e)
  where
    go :
        (b : Bool)
        → one_if b + occurs name ls ≡ 0
        → (occurs name ls ≡ 0 → target_of name (ls ++ (l ∷ [])) ≡ some (l.connect_to, l.transport))
        → elim b as (λ _. Option (Bytes × Option ℕ)) [
          | true ↦ some (m.connect_to, m.transport)
          | false ↦ target_of name (ls ++ (l ∷ []))
        ]
          ≡ some (l.connect_to, l.transport)
    go true h' ih = absurd (omega arith)
    go false h' ih = ih (omega arith)

-- For every list of listeners in which no name stands twice: behind install_listener no name stands
-- twice; if it reports success, the name leads to the given target and transport; if it reports any
-- failure, the list is the one there was.
pub install_listener-Settles :
    (bind : Bytes → Option ℕ) (name connect_to : Bytes) (transport : Option ℕ) (no_rebind : Bool)
    (ls : List Listener)
    → Distinct ls
    → Distinct (install_listener bind name connect_to transport no_rebind ls).0
      × Settles name connect_to transport ls
          (install_listener bind name connect_to transport no_rebind ls)
unfolding install_listener bind_new
install_listener-Settles bind name connect_to transport no_rebind ls d =
    go (rebind name connect_to transport no_rebind ls)
      (rebind-Rebound name connect_to transport no_rebind ls)
  where
    fresh :
        (o : Option ℕ)
        → occurs name ls ≡ 0
        → Distinct (bind_new name connect_to transport ls o).0
          × Settles name connect_to transport ls (bind_new name connect_to transport ls o)
    fresh none h = (d, refl)
    fresh (some fd) h = (distinct, target_of-append name ls l h (bytes_eq_refl name))
      where
        l : Listener
        l = record { local_name = name; connect_to = connect_to; transport = transport; fd = fd }

        at : (n : Bytes) (b : Bool) → bytes_eq n name ≡ b → occurs n ls + (one_if b + 0) ≤ 1
        at n true e =
            let same : occurs n ls ≡ 0 =
              subst (λ k. occurs k ls ≡ 0) (sym (bytes_eq_sound n name e)) h in
            omega arith
        at n false e = let few = d n in omega arith

        distinct : Distinct (ls ++ (l ∷ []))
        distinct n = rw (occurs-append n ls (l ∷ [])) (at n (bytes_eq n name) refl)

    go :
        (o : Option (List Listener × Status))
        → Rebound name connect_to transport ls o
        → (let r : List Listener × Status = elim o [
          | none ↦ bind_new name connect_to transport ls (bind name)
          | some r ↦ r
        ] in
            Distinct r.0 × Settles name connect_to transport ls r)
    go none h = fresh (bind name) h
    go (some r) (h, s) = ((λ n. let few = d n in omega (arith, h n)), s)
