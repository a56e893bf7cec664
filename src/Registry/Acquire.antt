-- ===== src/Registry/Acquire.antt =====
-- `acquire_one_transport` (src/adbd/transport.c): a transport is acquired when it is the only one.
use adbd.Base.{sym, subst, ◌∙◌}
use adbd.Registry.{acquire_round, not_found}
use adbd.Base.{◌≢◌, ◌↔◌, if◌then◌else◌}
use adbd.Registry.{Search, give_up, checked_state, offline, invalid_state}
use adbd.Base.{
  Option, none, some, ◌≡◌, refl, ap, Bool, true, false, List, [], ◌∷◌, arith, Bytes, ◌==◌,
}
use adbd.Registry.{
  TransportType, Entry, selects, is_noperm, Complaint, seek, state_number, wrong_state, Acquired,
  insufficient_permissions, more_than_one, acquired, refused_with, again_after,
}
use adbd.Transport.{ConnectionState}

-- The transports that the search can mean, in the list's order.
abbrev pub candidates : Option Bytes → TransportType → List Entry → List Entry
candidates serial ttype [] = []
candidates serial ttype (t ∷ ts) = elim (is_noperm t.connection_state) [
  | true ↦ candidates serial ttype ts
  | false ↦ elim (selects serial ttype t) [
    | true ↦ t ∷ candidates serial ttype ts
    | false ↦ candidates serial ttype ts
  ]
]

abbrev only : List Entry → Option Entry
only [] = none
only (t ∷ []) = some t
only (t ∷ (u ∷ ts)) = none

module _ (serial : Option Bytes) (ttype : TransportType) where
  seek-second :
      (r : Entry) (c : Complaint) (ts : List Entry)
      → (seek serial ttype (some r) c ts).result ≡ only (r ∷ candidates serial ttype ts)
  unfolding seek
  seek-second r c [] = refl
  seek-second r c (t ∷ ts) =
      go (is_noperm t.connection_state) (selects serial ttype t) (λ c'. seek-second r c' ts)
    where
      go :
          (b d : Bool)
          → ((c' : Complaint)
              → (seek serial ttype (some r) c' ts).result ≡ only (r ∷ candidates serial ttype ts))
          → (elim b as (λ _. Search) [
            | true ↦ seek serial ttype (some r) insufficient_permissions ts
            | false ↦ elim d as (λ _. Search) [
              | true ↦ record { result = none; complaint = more_than_one; ambiguous = true }
              | false ↦ seek serial ttype (some r) c ts
            ]
          ]).result
            ≡ only (
                r ∷ elim b [
                  | true ↦ candidates serial ttype ts
                  | false ↦ elim d [
                    | true ↦ t ∷ candidates serial ttype ts
                    | false ↦ candidates serial ttype ts
                  ]
                ])
      go true d ih = ih insufficient_permissions
      go false true ih = refl
      go false false ih = ih c

  seek-only :
      (c : Complaint) (ts : List Entry)
      → (seek serial ttype none c ts).result ≡ only (candidates serial ttype ts)
  unfolding seek
  seek-only c [] = refl
  seek-only c (t ∷ ts) =
      go (is_noperm t.connection_state) (selects serial ttype t) (λ c'. seek-only c' ts)
    where
      go :
          (b d : Bool)
          → ((c' : Complaint)
              → (seek serial ttype none c' ts).result ≡ only (candidates serial ttype ts))
          → (elim b as (λ _. Search) [
            | true ↦ seek serial ttype none insufficient_permissions ts
            | false ↦ elim d as (λ _. Search) [
              | true ↦ seek serial ttype (some t) c ts
              | false ↦ seek serial ttype none c ts
            ]
          ]).result
            ≡ only (elim b [
              | true ↦ candidates serial ttype ts
              | false ↦ elim d [
                | true ↦ t ∷ candidates serial ttype ts
                | false ↦ candidates serial ttype ts
              ]
            ])
      go true d ih = ih insufficient_permissions
      go false true ih = seek-second t c ts
      go false false ih = ih c

-- The conditions on a transport that was found.
abbrev pub IsReady : Option ConnectionState → Entry → Type 0
IsReady state t =
    ((state_number t.connection_state == 0) ≡ false)
    × (wrong_state state t.connection_state ≡ false)

or_else : Entry → Option Entry → Entry
or_else u none = u
or_else u (some t) = t

only-some : (ts : List Entry) (t : Entry) → only ts ≡ some t → ts ≡ t ∷ []
unfolding or_else
only-some [] t h = absurd (ground arith)
only-some (u ∷ []) t h = ap (λ o. or_else u o ∷ []) h
only-some (u ∷ (v ∷ ts)) t h = absurd (ground arith)

-- What a round makes of the one candidate, or of none.
Fits : Option ConnectionState → Option Bytes → Entry → Option Entry → Acquired → Type 0
Fits state serial t o a = (a ≡ acquired t) ↔ ((o ≡ some t) × IsReady state t)

true-false : true ≢ false
true-false h = ground arith

entry_of : Entry → Acquired → Entry
entry_of u (acquired t) = t
entry_of u (refused_with c) = u
entry_of u (again_after c) = u

give_up-refused :
    (state : Option ConnectionState) (serial : Option Bytes) (c : Complaint) (b : Bool) (t : Entry)
    → give_up state serial c b ≢ acquired t
unfolding give_up
give_up-refused none serial c b t h = ground arith
give_up-refused (some s) (some n) c b t h = ground arith
give_up-refused (some s) none c true t h = ground arith
give_up-refused (some s) none c false t h = ground arith

checked_state-Fits :
    (state : Option ConnectionState) (serial : Option Bytes) (s : Search) (t : Entry)
    → Fits state serial t s.result (checked_state state serial s)
unfolding Fits checked_state or_else entry_of
checked_state-Fits state serial s t = go s.result
  where
    go :
        (o : Option Entry)
        → Fits state serial t o (elim o [
          | none ↦ give_up state serial s.complaint s.ambiguous
          | some t ↦
              if state_number t.connection_state == 0
              then give_up state serial offline s.ambiguous
              else if wrong_state state t.connection_state
              then give_up state serial invalid_state s.ambiguous
              else acquired t
        ])
    go none = (
      (λ h. absurd (give_up-refused state serial s.complaint s.ambiguous t h)),
      (λ h. absurd (ground arith)),
    )
    go (some u) =
        some_fits (state_number u.connection_state == 0) refl (wrong_state state u.connection_state)
          refl
      where
        back : (o : Option Entry) → o ≡ some t → or_else t o ≡ t
        back o e = ap (or_else t) e

        some_fits :
            (a : Bool)
            → (state_number u.connection_state == 0) ≡ a
            → (b : Bool) → wrong_state state u.connection_state ≡ b
            → Fits state serial t (some u) (
                if a
                then give_up state serial offline s.ambiguous
                else if b
                then give_up state serial invalid_state s.ambiguous
                else acquired u)
        some_fits true e b e' = (
          (λ h. absurd (give_up-refused state serial offline s.ambiguous t h)),
          λ (o, (r, w)). absurd (
              true-false (
                sym e
                ∙ subst (λ x. (state_number x.connection_state == 0) ≡ false)
                    (sym (back (some u) o)) r)),
        )
        some_fits false e true e' = (
          (λ h. absurd (give_up-refused state serial invalid_state s.ambiguous t h)),
          λ (o, (r, w)). absurd (
              true-false (
                sym e'
                ∙ subst (λ x. wrong_state state x.connection_state ≡ false) (sym (back (some u) o))
                    w)),
        )
        some_fits false e false e' = (
          (λ h.
              let same : u ≡ t = ap (entry_of u) h in
              (ap some same, subst (IsReady state) same (e, e'))),
          λ (o, (r, w)). ap acquired (back (some u) o),
        )

-- One round succeeds with a transport exactly when it is the only one in the list that has
-- permissions and that the serial number (or, with none, the type) selects, and it is not offline and
-- is in the state asked for.
pub acquire_round_iff :
    (state : Option ConnectionState) (ttype : TransportType) (serial : Option Bytes)
    (ts : List Entry) (t : Entry)
    → (acquire_round state ttype serial ts ≡ acquired t)
      ↔ ((candidates serial ttype ts ≡ t ∷ []) × IsReady state t)
unfolding acquire_round Fits
acquire_round_iff state ttype serial ts t =
    let found = seek-only serial ttype not_found ts in
    let fits = checked_state-Fits state serial (seek serial ttype none not_found ts) t in
    (
      (λ h. let r = fits.0 h in (only-some (candidates serial ttype ts) t (sym found ∙ r.0), r.1)),
      λ (c, r). fits.1 (found ∙ ap only c, r),
    )
