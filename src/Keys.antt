-- ===== src/Keys.antt =====
-- The public keys of src/adbd/adb_auth_client.c: `read_keys` over the lines of a file. RSAPublicKey is
-- mincrypt's: its size, its field `len` and RSANUMWORDS are arguments.
pub mod Accepted
use adbd.Base.{
  Option, none, some, ℕ, zero, suc, ◌+◌, true, false, not, ◌||◌, List, [], ◌∷◌, ◌++◌, Bytes, ◌==◌,
  if◌then◌else◌, take,
}
use adbd.Base64.{b64_pton, refused, decoded}
use adbd.Transport.{c_string}

-- What mincrypt's header gives.
pub record KeyType : Type 0 where
  pub key_size : ℕ
  pub len_of : Bytes → ℕ
  pub rsa_num_words : ℕ

-- `sep=strpbrk(buf," \t")`, and the string cut there.
unfoldable pub cut_blank : Bytes → Bytes
cut_blank [] = []
cut_blank (c ∷ cs) = elim (c == 32 || c == 9) [ true ↦ [] | false ↦ c ∷ cut_blank cs ]

-- What calloc gives.
unfoldable pub zeros : ℕ → Bytes
zeros zero = []
zeros (suc n) = 0 ∷ zeros n

-- The checks on what was decoded: the count, then the field `len`.
unfoldable pub check_key : KeyType → Bytes → ℕ → Option Bytes
check_key k target ret =
    if not (ret == k.key_size)
    then none
    else if not (k.len_of (take k.key_size target) == k.rsa_num_words)
    then none
    else some (take k.key_size target)

-- A line of the file: the key that is added to the list, if one is.
unfoldable pub read_key : KeyType → Bytes → Option Bytes
unfolding cut_blank zeros check_key c_string
read_key k line =
    elim (b64_pton (cut_blank (c_string line)) (zeros (k.key_size + 4)) (k.key_size + 4)) [
      | refused target ↦ none
      | decoded ret target ↦ check_key k target ret
    ]

-- The loop of `read_keys` over what fgets returns; the keys go to the end of the list.
unfoldable pub read_keys : KeyType → List Bytes → List Bytes → List Bytes
unfolding read_key
read_keys k [] list = list
read_keys k (line ∷ lines) list = elim (read_key k line) [
  | none ↦ read_keys k lines list
  | some key ↦ read_keys k lines (list ++ (key ∷ []))
]

-- `adb_auth_reload_keys`: the list is emptied, then the files that are there are read in order.
unfoldable pub reload_from : KeyType → List (Option (List Bytes)) → List Bytes → List Bytes
unfolding read_keys
reload_from k [] list = list
reload_from k (none ∷ files) list = reload_from k files list
reload_from k (some lines ∷ files) list = reload_from k files (read_keys k lines list)

unfoldable pub adb_auth_reload_keys : KeyType → List (Option (List Bytes)) → List Bytes
unfolding reload_from
adb_auth_reload_keys k files = reload_from k files []
