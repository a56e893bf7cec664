-- ===== src/Base64.antt =====
-- `b64_pton` of src/adbd/base64.c. The source is a C string and the target an array of bytes; both
-- pointers are there, as they are in its one call. `none` of a step is the return of -1.
pub mod Table
pub mod Bounds
pub mod Scanning
pub mod RoundTrip
use adbd.Base.{[]}
use adbd.Base.{
  ◌/◌, ◌+◌, ◌%◌, ◌*◌, ◌&&◌, ◌||◌, set, false, leb, not, true, ◌==◌, codes, get_or, some, Bool,
  if◌then◌else◌, ◌∷◌, none, Option, Bytes,
}
use Prim.Native.Nat.{suc, ℕ, bit_and, bit_or}

-- The string `Base64` of the source.
abbrev pub alphabet : Bytes
alphabet = codes "ABCDEFGHIJKLMNOPQRSTUVWXYZabcdefghijklmnopqrstuvwxyz0123456789+/"

-- Pad64, the character '='.
abbrev pub pad64 : ℕ
pad64 = 61

-- `isspace` of the C locale.
abbrev pub is_space : ℕ → Bool
is_space c = (c == 32) || (leb 9 c && leb c 13)

-- The position that `strchr` finds, from `i` on.
abbrev pub position : ℕ → Bytes → ℕ → Option ℕ
position c [] i = none
position c (a ∷ rest) i = elim (a == c) [ true ↦ some i | false ↦ position c rest (suc i) ]

-- What the loop's head makes of a character.
pub data Kind : Type 0 where
  terminator blank padding foreign : Kind
  digit : ℕ → Kind

abbrev pub digit_of : Option ℕ → Kind
digit_of none = foreign
digit_of (some v) = digit v

unfoldable pub kind : ℕ → Kind
kind c =
    if c == 0
    then terminator
    else if is_space c
    then blank
    else if c == pad64
    then padding
    else digit_of (position c alphabet 0)

-- The variable `state` of the source, 0 to 3.
pub data Phase : Type 0 where
  first second third fourth : Phase

pub record Work : Type 0 where
  pub phase : Phase
  pub tarindex : ℕ
  pub target : Bytes

-- `target[i]`.
abbrev pub byte_at : Bytes → ℕ → ℕ
byte_at bs i = get_or bs i 0

-- The switch: the digit `v` goes into the target, whose size is `n`.
unfoldable pub put_digit : ℕ → ℕ → Phase → ℕ → Bytes → Option Work
put_digit n v first i bs =
    if leb n i
    then none
    else some (record { phase = second; tarindex = i; target = set bs i (v * 4 % 256) })
put_digit n v second i bs =
    if leb n (i + 1)
    then none
    else some (record {
      phase = third;
      tarindex = suc i;
      target =
          set (set bs i (bit_or (byte_at bs i) (v / 16) % 256)) (i + 1) (bit_and v 15 * 16 % 256);
    })
put_digit n v third i bs =
    if leb n (i + 1)
    then none
    else some (record {
      phase = fourth;
      tarindex = suc i;
      target =
          set (set bs i (bit_or (byte_at bs i) (v / 4) % 256)) (i + 1) (bit_and v 3 * 64 % 256);
    })
put_digit n v fourth i bs =
    if leb n i
    then none
    else some (record {
      phase = first;
      tarindex = suc i;
      target = set bs i (bit_or (byte_at bs i) v % 256);
    })

-- What the function returns: -1, or the number of bytes; with the target as it leaves it.
pub data Decoded : Type 0 where
  refused : Bytes → Decoded
  decoded : ℕ → Bytes → Decoded

-- Behind the string's end with no padding.
unfoldable pub ended : Phase → ℕ → Bytes → Decoded
ended first i bs = decoded i bs
ended second i bs = refused bs
ended third i bs = refused bs
ended fourth i bs = refused bs

-- Case 2 of the padding: blanks, then the second '='; the string behind it.
unfoldable pub second_pad : Bytes → Option Bytes
second_pad [] = none
second_pad (c ∷ cs) = elim (kind c) [
  | terminator ↦ none
  | blank ↦ second_pad cs
  | padding ↦ some cs
  | foreign ↦ none
  | digit v ↦ none
]

-- Case 3: blanks up to the end.
unfoldable pub all_blank : Bytes → Bool
all_blank [] = true
all_blank (c ∷ cs) = elim (kind c) [
  | terminator ↦ true
  | blank ↦ all_blank cs
  | padding ↦ false
  | foreign ↦ false
  | digit v ↦ false
]

-- The end of case 3: no bit of the last digit may be lost.
unfoldable pub closed_off : Bytes → ℕ → Bytes → Decoded
unfolding all_blank
closed_off cs i bs =
    if not (all_blank cs)
    then refused bs
    else if not (byte_at bs i == 0)
    then refused bs
    else decoded i bs

-- The switch behind the first '='.
unfoldable pub padded : Bytes → Phase → ℕ → Bytes → Decoded
unfolding second_pad closed_off
padded cs first i bs = refused bs
padded cs second i bs = refused bs
padded cs third i bs = elim (second_pad cs) [ none ↦ refused bs | some cs' ↦ closed_off cs' i bs ]
padded cs fourth i bs = closed_off cs i bs

-- The loop over the source.
unfoldable pub scan : ℕ → Bytes → Phase → ℕ → Bytes → Decoded
unfolding put_digit ended padded
scan n [] ph i bs = ended ph i bs
scan n (c ∷ cs) ph i bs = elim (kind c) [
  | terminator ↦ ended ph i bs
  | blank ↦ scan n cs ph i bs
  | padding ↦ padded cs ph i bs
  | foreign ↦ refused bs
  | digit v ↦ elim (put_digit n v ph i bs) [
    | none ↦ refused bs
    | some w ↦ scan n cs w.phase w.tarindex w.target
  ]
]

unfoldable pub b64_pton : Bytes → Bytes → ℕ → Decoded
unfolding scan
b64_pton src target targsize = scan targsize src first 0 target
