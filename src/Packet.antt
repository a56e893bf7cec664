-- ===== src/Packet.antt =====
-- The packets of src/adbd/adb.h: the message, its header and data checks and `send_packet` of
-- src/adbd/transport.c, and the wire form that `remote_read` and `remote_write` of
-- src/adbd/transport_local.c give it. An `unsigned` is a number below 2 ^ 32; `data` holds what is
-- known of the data array, which has `max_payload` bytes in the source.
pub mod Bits
pub mod Wire
pub mod RoundTrip
pub mod Sound
use Prim.Native.Nat.{bit_xor}
use adbd.Base.{
  ℕ, zero, suc, ◌+◌, ◌*◌, ◌/◌, ◌%◌, ◌^◌, ◌≤◌, ◌<◌, Bool, true, false, not, ◌||◌, Option, none, some,
  List, [], ◌∷◌, ◌++◌, ◌==◌, ltb, if◌then◌else◌, Bytes, length, take, IsBytes,
}

abbrev pub max_payload : ℕ
max_payload = 4096

abbrev pub u32_mod : ℕ
u32_mod = 2 ^ 32

-- 0xffffffff
abbrev pub u32_max : ℕ
u32_max = 0xffff_ffff

abbrev pub a_sync : ℕ
a_sync = 0x434e_5953

abbrev pub a_cnxn : ℕ
a_cnxn = 0x4e58_4e43

abbrev pub a_open : ℕ
a_open = 0x4e45_504f

abbrev pub a_okay : ℕ
a_okay = 0x5941_4b4f

abbrev pub a_clse : ℕ
a_clse = 0x4553_4c43

abbrev pub a_wrte : ℕ
a_wrte = 0x4554_5257

abbrev pub a_auth : ℕ
a_auth = 0x4854_5541

abbrev pub a_version : ℕ
a_version = 0x0100_0000

pub record Message : Type 0 where
  pub command : ℕ
  pub arg0 : ℕ
  pub arg1 : ℕ
  pub data_length : ℕ
  pub data_check : ℕ
  pub magic : ℕ

pub record Packet : Type 0 where
  pub msg : Message
  pub len : ℕ
  pub bytes : Bytes

-- `get_apacket`: malloc and memset; all but the data array is zero.
unfoldable pub get_apacket : Packet
get_apacket = record {
  msg = record { command = 0; arg0 = 0; arg1 = 0; data_length = 0; data_check = 0; magic = 0 };
  len = 0;
  bytes = [];
}

-- The loop `while(count-->0)sum+=*x++` over the data, with its 32-bit sum.
unfoldable pub sum_bytes : ℕ → Bytes → ℕ → ℕ
sum_bytes zero bs sum = sum
sum_bytes (suc count) [] sum = sum
sum_bytes (suc count) (b ∷ bs) sum = sum_bytes count bs ((sum + b) % u32_mod)

-- 0 is true here, and -1 is false.
unfoldable pub check_header : Message → Bool
check_header m =
    if not (m.magic == bit_xor m.command u32_max)
    then false
    else if ltb max_payload m.data_length
    then false
    else true

unfoldable pub check_data : Packet → Bool
unfolding sum_bytes
check_data p = sum_bytes p.msg.data_length p.bytes 0 == p.msg.data_check

-- What `send_packet` makes of a packet before it hands it to the transport's socket: the magic,
-- then the sum over `data_length` bytes.
unfoldable pub seal : Packet → Packet
unfolding sum_bytes
seal p = record p {
  msg = record p.msg {
    magic = bit_xor p.msg.command u32_max;
    data_check = sum_bytes p.msg.data_length p.bytes 0;
  };
}
