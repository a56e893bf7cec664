-- ===== src/Keys/Accepted.antt =====
-- Which lines `read_keys` (src/adbd/adb_auth_client.c) takes for keys.
use adbd.Base.{some, sym, ◌∙◌, List, map, append-nil, append_assoc, ==_iff, length, take, take_left}
use adbd.Keys.{KeyType, zeros, check_key, read_key, read_keys}
use adbd.Base.{
  ℕ, zero, suc, ◌+◌, ◌*◌, ◌/◌, ◌%◌, ◌<◌, ◌≡◌, refl, ap, Bool, true, false, not, ◌&&◌, ◌||◌, [], ◌∷◌,
  ◌++◌, arith, Bytes, All, IsBytes, ◌==◌, all_below-lem,
}
use adbd.Keys.{cut_blank}
use adbd.Transport.{c_string}
use adbd.Base64.Table.{char}
use adbd.Base64.RoundTrip.{encode, b64_pton-encode}

-- No blank and no zero.
abbrev is_plain : ℕ → Bool
is_plain c = not (c == 32 || c == 9) && not (c == 0)

char-plain : (v : ℕ) → v < 64 → is_plain (char v) ≡ true
unfolding char
char-plain v h = all_below-lem 64 (λ v. is_plain (char v)) refl v h

Plain : Bytes → Type 0
Plain cs = All (λ c. is_plain c ≡ true) cs

encode-Plain : (bs : Bytes) → IsBytes bs → Plain (encode bs)
unfolding Plain
encode-Plain [] h = tt
encode-Plain (a ∷ []) (p, h) =
    (char-plain (a / 4) (omega arith), (char-plain (a % 4 * 16) (omega arith), (refl, (refl, tt))))
encode-Plain (a ∷ (b ∷ [])) (p, (q, h)) = (
  char-plain (a / 4) (omega arith),
  (
    char-plain (a % 4 * 16 + b / 16) (omega arith),
    (char-plain (b % 16 * 4) (omega arith), (refl, tt)),
  ),
)
encode-Plain (a ∷ (b ∷ (c ∷ bs))) (p, (q, (r, h))) = (
  char-plain (a / 4) (omega arith),
  (
    char-plain (a % 4 * 16 + b / 16) (omega arith),
    (
      char-plain (b % 16 * 4 + c / 64) (omega arith),
      (char-plain (c % 64) (omega arith), encode-Plain bs h),
    ),
  ),
)

plain-facts : (c : ℕ) → is_plain c ≡ true → ((c == 32 || c == 9) ≡ false) × (0 < c)
plain-facts c h = (ground arith, ground arith)

-- What the two cuts leave of a plain text and a blank.
cut-Plain : (cs rest : Bytes) → Plain cs → cut_blank (c_string (cs ++ (32 ∷ rest))) ≡ cs
unfolding Plain cut_blank c_string
cut-Plain [] rest h = refl
cut-Plain (zero ∷ cs) rest (p, h) = absurd (ground arith)
cut-Plain (suc c ∷ cs) rest (p, h) =
    rw (cut_blank, (plain-facts (suc c) p).0) (ap (◌∷◌ (suc c)) (cut-Plain cs rest h))

length-zeros : (n : ℕ) → length (zeros n) ≡ n
unfolding zeros
length-zeros zero = refl
length-zeros (suc n) = ap suc (length-zeros n)

-- What mincrypt can use as a key.
abbrev pub IsKey : KeyType → Bytes → Type 0
IsKey k key = IsBytes key × (length key ≡ k.key_size) × (k.len_of key ≡ k.rsa_num_words)

check_key-IsKey :
    (k : KeyType) (key rest : Bytes)
    → IsKey k key
    → check_key k (key ++ rest) (length key) ≡ some key
unfolding check_key
check_key-IsKey k key rest (b, l, w) =
    let cut : take k.key_size (key ++ rest) ≡ key =
      ap (λ n. take n (key ++ rest)) (sym l) ∙ take_left key rest in
    let count : (length key == k.key_size) ≡ true = (==_iff (length key) k.key_size).1 l in
    let words : (k.len_of key == k.rsa_num_words) ≡ true =
      (==_iff (k.len_of key) k.rsa_num_words).1 w in
    rw (count, cut, words) refl

read_key-IsKey :
    (k : KeyType) (key comment : Bytes)
    → IsKey k key
    → read_key k (encode key ++ (32 ∷ comment)) ≡ some key
unfolding read_key
read_key-IsKey k key comment (b, l, w) =
    let text = cut-Plain (encode key) comment (encode-Plain key b) in
    let long = length-zeros (k.key_size + 4) in
    let r =
      b64_pton-encode key (zeros (k.key_size + 4)) (k.key_size + 4) b (omega arith) (omega arith) in
    rw (read_key, text, r.1) (check_key-IsKey k key r.0 (b, l, w))

-- The lines of a file that holds these keys, each with a comment.
abbrev pub key_lines : List (Bytes × Bytes) → List Bytes
key_lines [] = []
key_lines ((key, comment) ∷ ks) = (encode key ++ (32 ∷ comment)) ∷ key_lines ks

-- For lines that each are the base64 encoding of a key of mincrypt's size and word count, a blank and a
-- comment: read_keys adds every key, in order, to the end of the list.
pub read_keys-key_lines :
    (k : KeyType) (ks : List (Bytes × Bytes)) (list : List Bytes)
    → All (λ r. IsKey k r.0) ks
    → read_keys k (key_lines ks) list ≡ list ++ map (λ r. r.0) ks
unfolding read_keys
read_keys-key_lines k [] list h = sym (append-nil list)
read_keys-key_lines k ((key, comment) ∷ ks) list (h, hs) =
    rw (read_keys, read_key-IsKey k key comment h)
      (read_keys-key_lines k ks (list ++ (key ∷ [])) hs
        ∙ append_assoc list (key ∷ []) (map (λ r. r.0) ks))
