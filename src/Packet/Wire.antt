-- ===== src/Packet/Wire.antt =====
-- The wire form of a packet, as src/adbd/transport_local.c reads and writes it: the six words of
-- `amessage`, lowest byte first, and `data_length` bytes of data.
use adbd.Base.{ℕ, ◌+◌, ◌*◌, ◌/◌, ◌%◌, Option, none, some, [], ◌∷◌, ◌++◌, if◌then◌else◌, Bytes, take}
use adbd.Io.{Source, got, lost, unfinished, readx, Sink, Put, writex}
use adbd.Packet.{Message, Packet, check_header, check_data}

-- An `unsigned` in memory.
abbrev pub le32 : ℕ → Bytes → Bytes
le32 n rest = n % 256 ∷ (n / 256 % 256 ∷ (n / 65536 % 256 ∷ (n / 16777216 % 256 ∷ rest)))

-- The memory of an `amessage`.
unfoldable pub encode : Message → Bytes
encode m =
    le32 m.command
      (le32 m.arg0 (le32 m.arg1 (le32 m.data_length (le32 m.data_check (le32 m.magic [])))))

abbrev word : ℕ → ℕ → ℕ → ℕ → ℕ
word a b c d = a + b * 256 + c * 65536 + d * 16777216

-- The next word of a memory, and what stands behind it. A short memory gives nothing.
take_word : Bytes → Option (ℕ × Bytes)
take_word (a ∷ (b ∷ (c ∷ (d ∷ rest)))) = some (word a b c d, rest)
take_word _ = none

infixl 5 ◌>>=◌
abbrev ◌>>=◌ : {A B : Type 0} → Option A → (A → Option B) → Option B
none >>= f = none
some a >>= f = f a

unfoldable pub decode : Bytes → Option Message
unfolding take_word
decode bs = do
  (command, bs) ← take_word bs
  (arg0, bs) ← take_word bs
  (arg1, bs) ← take_word bs
  (data_length, bs) ← take_word bs
  (data_check, bs) ← take_word bs
  (magic, bs) ← take_word bs
  some (record {
    command = command;
    arg0 = arg0;
    arg1 = arg1;
    data_length = data_length;
    data_check = data_check;
    magic = magic;
  })

-- sizeof(amessage)
abbrev pub header_size : ℕ
header_size = 24

-- What `remote_read` returns: a packet and 0, or -1, with the stream behind it.
pub data Received : Type 0 where
  received : Packet → Source → Received
  rejected : Received

-- The tail of `remote_read`: the data, then its check.
unfoldable pub read_data : Message → Source → Received
read_data m s = elim (readx m.data_length s) [
  | got bs s' ↦
      let p : Packet = record { msg = m; len = 0; bytes = bs } in
      if check_data p then received p s' else rejected
  | lost s' ↦ rejected
  | unfinished ↦ rejected
]

-- The middle of `remote_read`: the check of the header that was read.
unfoldable pub read_body : Option Message → Source → Received
read_body none s = rejected
read_body (some m) s = if check_header m then read_data m s else rejected

unfoldable pub remote_read : Source → Received
remote_read s = elim (readx header_size s) [
  | got bs s' ↦ read_body (decode bs) s'
  | lost s' ↦ rejected
  | unfinished ↦ rejected
]

-- `remote_write`: one `writex` of the message and the `data_length` bytes that follow it.
unfoldable pub remote_write : Packet → Sink → Put
remote_write p s = writex (encode p.msg ++ take p.msg.data_length p.bytes) s
