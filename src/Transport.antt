-- ===== src/Transport.antt =====
-- The part of an `atransport` (src/adbd/adb.h) that the packet handler of src/adbd/adb.c reads and
-- writes, and `parse_banner`, which takes a CNXN packet's text apart.
use adbd.Base.{
  codes, ℕ, zero, suc, Bool, true, false, ◌&&◌, Option, none, some, List, [], ◌∷◌, ◌++◌, ◌==◌,
  if◌then◌else◌, Bytes,
}

pub data ConnectionState : Type 0 where
  cs_offline cs_bootloader cs_device cs_host cs_recovery cs_noperm cs_sideload : ConnectionState

abbrev pub is_offline : ConnectionState → Bool
is_offline cs_offline = true
is_offline _ = false

-- `auth_wait` says that the fdevent of the framework's answer is installed for this transport.
pub record Transport : Type 0 where
  pub online : Bool
  pub connection_state : ConnectionState
  pub product : Option Bytes
  pub model : Option Bytes
  pub device : Option Bytes
  pub token : Bytes
  pub auth_wait : Bool
  pub failed_auth_attempts : ℕ

-- The bytes of a C string: those before the first zero.
unfoldable pub c_string : Bytes → Bytes
c_string [] = []
c_string (zero ∷ bs) = []
c_string (suc c ∷ bs) = suc c ∷ c_string bs

-- `!strcmp(a,b)`
unfoldable pub bytes_eq : Bytes → Bytes → Bool
bytes_eq [] [] = true
bytes_eq (x ∷ xs) (y ∷ ys) = x == y && bytes_eq xs ys
bytes_eq _ _ = false

-- `!strncmp(prefix,s,strlen(prefix))`
unfoldable pub starts_with : Bytes → Bytes → Bool
starts_with [] s = true
starts_with (x ∷ xs) (y ∷ ys) = x == y && starts_with xs ys
starts_with (x ∷ xs) [] = false

-- `strchr`: what stands before the first `c`, and what stands behind it, if there is one.
unfoldable pub split_at : ℕ → Bytes → Bytes × Option Bytes
split_at c [] = ([], none)
split_at c (b ∷ bs) = let r = split_at c bs in if b == c then ([], some bs) else (b ∷ r.0, r.1)

-- The tokens of `strtok_r` with one separator: the runs between separators that are not empty. The
-- run so far is `cur`.
unfoldable pub tokens : ℕ → Bytes → Bytes → List Bytes
tokens c [] [] = []
tokens c (x ∷ cur) [] = (x ∷ cur) ∷ []
tokens c [] (b ∷ bs) = tokens c (if b == c then [] else b ∷ []) bs
tokens c (x ∷ cur) (b ∷ bs) =
    let ended = (x ∷ cur) ∷ tokens c [] bs in
    let longer = tokens c (x ∷ (cur ++ (b ∷ []))) bs in if b == c then ended else longer

-- `qual_overwrite` with a string: an empty one leaves NULL.
abbrev pub qual : Bytes → Option Bytes
qual [] = none
qual (c ∷ cs) = some (c ∷ cs)

abbrev pub key_name : Bytes
key_name = codes "ro.product.name"

abbrev pub key_model : Bytes
key_model = codes "ro.product.model"

abbrev pub key_device : Bytes
key_device = codes "ro.product.device"

-- The assignment of one property, at its key and value.
unfoldable pub set_property : Bytes → Bytes → Transport → Transport
unfolding bytes_eq
set_property key value t =
    if bytes_eq key key_name
    then record t { product = qual value }
    else if bytes_eq key key_model
    then record t { model = qual value }
    else if bytes_eq key key_device
    then record t { device = qual value }
    else t

-- A token with no `=` is passed over.
unfoldable pub apply_property : Bytes × Option Bytes → Transport → Transport
unfolding set_property
apply_property (key, none) t = t
apply_property (key, some value) t = set_property key value t

unfoldable pub apply_properties : List Bytes → Transport → Transport
unfolding apply_property split_at
apply_properties [] t = t
apply_properties (k ∷ ks) t = apply_properties ks (apply_property (split_at b'=' k) t)

-- What stands behind the second colon, if there are two.
unfoldable pub properties_of : Option Bytes → Transport → Transport
unfolding apply_properties tokens
properties_of none t = t
properties_of (some props) t = apply_properties (tokens b';' [] props) t

unfoldable pub behind_second : Option Bytes → Transport → Transport
unfolding properties_of split_at
behind_second none t = t
behind_second (some rest) t = properties_of (split_at b':' rest).1 t

-- The connection state that the banner's type names.
unfoldable pub state_of : Bytes → ConnectionState
unfolding bytes_eq
state_of type =
    if bytes_eq type (codes "bootloader")
    then cs_bootloader
    else if bytes_eq type (codes "device")
    then cs_device
    else if bytes_eq type (codes "recovery")
    then cs_recovery
    else if bytes_eq type (codes "sideload")
    then cs_sideload
    else cs_host

-- `parse_banner` of the C string `banner`.
unfoldable pub parse_banner : Bytes → Transport → Transport
unfolding split_at behind_second state_of
parse_banner banner t = record (behind_second (split_at b':' banner).1 t) {
  connection_state = state_of (split_at b':' banner).0;
}
