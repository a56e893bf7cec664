-- ===== src/Registry/Match.antt =====
-- `qual_match` (src/adbd/transport.c) against its meaning.
use adbd.Base.{
  none, some, ℕ, ◌≡◌, refl, sym, subst, ◌↔◌, Bool, true, false, [], ◌∷◌, ◌++◌, map, arith, Bytes,
  ◌==◌, ==_iff,
}
use adbd.Registry.{sanitized, after_prefix, matches_qual, matches_rest, qual_match}
use adbd.Transport.{qual}

matches_qual_sound :
    (b : Bool) (qual to_test : Bytes)
    → matches_qual b qual to_test ≡ true
    → to_test ≡ map (sanitized b) qual
unfolding matches_qual
matches_qual_sound b [] [] h = refl
matches_qual_sound b [] (d ∷ t) h = absurd (ground arith)
matches_qual_sound b (c ∷ q) [] h = absurd (ground arith)
matches_qual_sound b (c ∷ q) (d ∷ t) h = go (sanitized b c == d) refl h (matches_qual_sound b q t)
  where
    go :
        (e : Bool)
        → (sanitized b c == d) ≡ e
        → elim e [ true ↦ matches_qual b q t | false ↦ false ] ≡ true
        → (matches_qual b q t ≡ true → t ≡ map (sanitized b) q)
        → (d ∷ t) ≡ (sanitized b c ∷ map (sanitized b) q)
    go true e h' ih = rw ((==_iff (sanitized b c) d).0 e, ih h') refl
    go false e h' ih = absurd (ground arith)

matches_qual_complete :
    (b : Bool) (qual : Bytes) → matches_qual b qual (map (sanitized b) qual) ≡ true
unfolding matches_qual
matches_qual_complete b [] = refl
matches_qual_complete b (c ∷ q) =
    rw (matches_qual, (==_iff (sanitized b c) (sanitized b c)).1 refl) (matches_qual_complete b q)

after_prefix_sound :
    (b : Bool) (qual prefix to_test : Bytes)
    → matches_rest b qual (after_prefix prefix to_test) ≡ true
    → to_test ≡ prefix ++ map (sanitized b) qual
unfolding after_prefix matches_rest
after_prefix_sound b qual [] t h = matches_qual_sound b qual t h
after_prefix_sound b qual (c ∷ p) [] h = absurd (ground arith)
after_prefix_sound b qual (c ∷ p) (d ∷ t) h = go (c == d) refl h (after_prefix_sound b qual p t)
  where
    go :
        (e : Bool)
        → (c == d) ≡ e
        → matches_rest b qual (elim e [ true ↦ after_prefix p t | false ↦ none ]) ≡ true
        → (matches_rest b qual (after_prefix p t) ≡ true → t ≡ p ++ map (sanitized b) qual)
        → (d ∷ t) ≡ (c ∷ (p ++ map (sanitized b) qual))
    go true e h' ih = rw ((==_iff c d).0 e, ih h') refl
    go false e h' ih = absurd (ground arith)

after_prefix_complete :
    (b : Bool) (qual prefix : Bytes)
    → matches_rest b qual (after_prefix prefix (prefix ++ map (sanitized b) qual)) ≡ true
unfolding after_prefix matches_rest
after_prefix_complete b qual [] = matches_qual_complete b qual
after_prefix_complete b qual (c ∷ p) =
    rw (matches_rest, after_prefix, (==_iff c c).1 refl) (after_prefix_complete b qual p)

-- For a serial number that is not empty and a quality that is there: `qual_match` holds exactly when
-- the serial number is the prefix followed by the quality, each of its characters that is no letter
-- or digit replaced by '_' where that is asked for.
pub qual_match_iff :
    (c : ℕ) (cs prefix qual : Bytes) (b : Bool)
    → (qual_match (c ∷ cs) prefix (some qual) b ≡ true)
      ↔ ((c ∷ cs) ≡ prefix ++ map (sanitized b) qual)
unfolding qual_match
qual_match_iff c cs prefix qual b = (
  after_prefix_sound b qual prefix (c ∷ cs),
  λ h.
      subst (λ t. matches_rest b qual (after_prefix prefix t) ≡ true) (sym h)
        (after_prefix_complete b qual prefix),
)
