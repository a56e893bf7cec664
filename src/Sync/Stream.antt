-- ===== src/Sync/Stream.antt =====
-- The sequences of DATA messages of src/adbd/file_sync_service.c, in either direction.
use adbd.Base.{ℕ, ◌+◌, ◌*◌, ◌/◌, ◌%◌, ◌^◌, ◌≤◌, ◌<◌, ◌≡◌, [], ◌++◌, arith, Bytes, length}
use adbd.Sync.{id_done, id_data, sync_data_max}
use adbd.Packet.Wire.{le32}

-- A sequence of DATA messages, none empty or oversize, and a DONE with the word `time`, that carries
-- `bs`.
pub data Carries (time : ℕ) : Bytes → Bytes → Type 0 where
  over : Carries time [] (le32 id_done (le32 time []))
  more :
      (c bs stream : Bytes)
      → 0 < length c
      → length c ≤ sync_data_max
      → Carries time bs stream
      → Carries time (c ++ bs) (le32 id_data (le32 (length c) []) ++ (c ++ stream))

-- The two words of a message come back from its bytes.
pub word-le32 :
    (n : ℕ)
    → n < 2 ^ 32
    → n % 256 + n / 256 % 256 * 256 + n / 65536 % 256 * 65536 + n / 16777216 % 256 * 16777216 ≡ n
word-le32 n h = omega arith
