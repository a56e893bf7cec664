-- ===== src/Base64/Table.antt =====
-- The characters of `b64_pton` and the bits of a digit: facts at the numbers below 64 and 256.
use adbd.Base.{all_below-lem}
use adbd.Base.{refl}
use adbd.Base64.{terminator, blank, foreign}
use adbd.Base.{==_iff, ◌==◌, ap, ◌*◌, arith, ◌%◌, ◌/◌, false, true, ◌≡◌, ◌<◌}
use adbd.Base64.{padding, digit, alphabet, byte_at, pad64, Kind, Bool, kind}
use Prim.Native.Nat.{ℕ, bit_and, bit_or}

abbrev is_digit : ℕ → Kind → Bool
is_digit v terminator = false
is_digit v blank = false
is_digit v padding = false
is_digit v foreign = false
is_digit v (digit w) = w == v

is_digit-lem : (v : ℕ) (k : Kind) → is_digit v k ≡ true → k ≡ digit v
is_digit-lem v (digit w) h = ap digit ((==_iff w v).0 h)
is_digit-lem v terminator h = ground arith
is_digit-lem v blank h = ground arith
is_digit-lem v padding h = ground arith
is_digit-lem v foreign h = ground arith

-- The character of a digit.
unfoldable pub char : ℕ → ℕ
char v = byte_at alphabet v

pub kind-char : (v : ℕ) → v < 64 → kind (char v) ≡ digit v
unfolding kind char
kind-char v h =
    is_digit-lem v (kind (char v)) (all_below-lem 64 (λ v. is_digit v (kind (char v))) refl v h)

pub kind-pad64 : kind pad64 ≡ padding
unfolding kind
kind-pad64 = refl

pub low_four : (v : ℕ) → v < 64 → bit_and v 15 ≡ v % 16
low_four v h =
    (==_iff (bit_and v 15) (v % 16)).0 (all_below-lem 64 (λ v. bit_and v 15 == v % 16) refl v h)

pub low_two : (v : ℕ) → v < 64 → bit_and v 3 ≡ v % 4
low_two v h =
    (==_iff (bit_and v 3) (v % 4)).0 (all_below-lem 64 (λ v. bit_and v 3 == v % 4) refl v h)

-- A byte is the union of its high and its low bits, wherever it is cut.
pub join_two : (p : ℕ) → p < 256 → bit_or (p / 4 * 4) (p % 4) ≡ p
join_two p h =
    (==_iff (bit_or (p / 4 * 4) (p % 4)) p).0
      (all_below-lem 256 (λ p. bit_or (p / 4 * 4) (p % 4) == p) refl p h)

pub join_four : (p : ℕ) → p < 256 → bit_or (p / 16 * 16) (p % 16) ≡ p
join_four p h =
    (==_iff (bit_or (p / 16 * 16) (p % 16)) p).0
      (all_below-lem 256 (λ p. bit_or (p / 16 * 16) (p % 16) == p) refl p h)

pub join_six : (p : ℕ) → p < 256 → bit_or (p / 64 * 64) (p % 64) ≡ p
join_six p h =
    (==_iff (bit_or (p / 64 * 64) (p % 64)) p).0
      (all_below-lem 256 (λ p. bit_or (p / 64 * 64) (p % 64) == p) refl p h)
