-- ===== src/Base/Members.antt =====
-- Members of a list of numbers, and lists with no member twice.
use Prim.Native.Nat.{ℕ}
use mathlib.Core.Path.{◌≡◌, refl, sym}
use mathlib.Core.Logic.{◌⊎◌, inl, inr}
use mathlib.Core.List.{List, [], ◌∷◌, ◌++◌}

abbrev pub In : ℕ → List ℕ → Type 0
In p [] = ⊥
In p (x ∷ xs) = (x ≡ p) ⊎ In p xs

abbrev pub Distinct : List ℕ → Type 0
Distinct [] = Unit
Distinct (x ∷ xs) = ¬ In x xs × Distinct xs

pub In-append : (p : ℕ) (xs ys : List ℕ) → In p (xs ++ ys) → In p xs ⊎ In p ys
In-append p [] ys h = inr h
In-append p (x ∷ xs) ys (inl e) = inl (inl e)
In-append p (x ∷ xs) ys (inr h) = elim (In-append p xs ys h) [ inl a ↦ inl (inr a) | inr b ↦ inr b ]

pub In-left : (p : ℕ) (xs ys : List ℕ) → In p xs → In p (xs ++ ys)
In-left p [] ys h = absurd h
In-left p (x ∷ xs) ys (inl e) = inl e
In-left p (x ∷ xs) ys (inr h) = inr (In-left p xs ys h)

pub In-last : (p : ℕ) (xs : List ℕ) → In p (xs ++ (p ∷ []))
In-last p [] = inl refl
In-last p (x ∷ xs) = inr (In-last p xs)

pub Distinct-append : (p : ℕ) (xs : List ℕ) → Distinct xs → ¬ In p xs → Distinct (xs ++ (p ∷ []))
Distinct-append p [] d h = (λ x. x, tt)
Distinct-append p (x ∷ xs) (new, d) h = (
  λ i. elim (In-append x xs (p ∷ []) i) [
    | inl a ↦ new a
    | inr (inl e) ↦ h (inl (sym e))
    | inr (inr e) ↦ e
  ],
  Distinct-append p xs d (λ i. h (inr i)),
)
