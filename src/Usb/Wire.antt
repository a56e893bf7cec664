-- ===== src/Usb/Wire.antt =====
-- `remote_read` and `remote_write` of src/adbd/transport_usb.c: a packet is two transfers of the
-- driver, its message and then its data, if it has any.
use Prim.Native.Nat.{bit_xor}
use adbd.Base.{
  Option, none, some, ◌≤◌, ◌≡◌, sym, ap, ◌∙◌, inl, inr, true, [], ◌++◌, Bytes, ◌==◌, if◌then◌else◌,
  ==_iff, Bool-cases, Option-cases, length, take,
}
use adbd.Usb.{
  Endpoint, Read, Outlet, Write, UsbDriver, read_all, read_failed, read_waits, read_unfinished,
  wrote_all, write_failed, write_waits, write_unfinished,
}
use adbd.Usb.Bulk.{Reads, IsFaithful}
use adbd.Packet.{max_payload, u32_max, Message, Packet, sum_bytes, check_header, check_data}
use adbd.Packet.Wire.{encode, decode, header_size}
use adbd.Packet.Sound.{check_header-true}

-- What `remote_read` comes to: a packet and 0, -1, or a read that never returns.
pub data Arrival : Type 0 where
  arrives : Packet → Endpoint → Arrival
  rejects : Arrival
  awaits : Arrival

-- The check of the data, behind its read.
abbrev checked : Packet → Endpoint → Arrival
checked p e = if check_data p then arrives p e else rejects

module _ (d : UsbDriver) where
  -- The data of a message; with a length of 0 none is read.
  unfoldable pub usb_read_data : Message → Endpoint → Arrival
  usb_read_data m e =
      if m.data_length == 0
      then checked (record { msg = m; len = 0; bytes = [] }) e
      else (elim (d.read m.data_length e) [
        | read_all bs e' ↦ checked (record { msg = m; len = 0; bytes = bs }) e'
        | read_failed e' ↦ rejects
        | read_waits ↦ awaits
        | read_unfinished ↦ rejects
      ])

  -- The check of the header, behind its read.
  unfoldable pub usb_read_body : Option Message → Endpoint → Arrival
  unfolding usb_read_data
  usb_read_body none e = rejects
  usb_read_body (some m) e = if check_header m then usb_read_data m e else rejects

  unfoldable pub usb_remote_read : Endpoint → Arrival
  unfolding usb_read_body
  usb_remote_read e = elim (d.read header_size e) [
    | read_all bs e' ↦ usb_read_body (decode bs) e'
    | read_failed e' ↦ rejects
    | read_waits ↦ awaits
    | read_unfinished ↦ rejects
  ]

  unfoldable pub usb_remote_write : Packet → Outlet → Write
  usb_remote_write p o = elim (d.write (encode p.msg) o) [
    | wrote_all o' ↦
        if p.msg.data_length == 0 then wrote_all o' else d.write (take p.msg.data_length p.bytes) o'
    | write_failed o' ↦ write_failed o'
    | write_waits ↦ write_waits
    | write_unfinished ↦ write_unfinished
  ]

-- A packet read from the bytes `bs`, with `bs'` behind it: it is the next one on the endpoint, its
-- header has the right magic and a length that fits, and its data is whole with the right sum.
pub record IsNext (bs : Bytes) (p : Packet) (bs' : Bytes) : Type 0 where
  pub header : Bytes
  pub on_wire : header ++ (p.bytes ++ bs') ≡ bs
  pub decoded : decode header ≡ some p.msg
  pub magic : p.msg.magic ≡ bit_xor p.msg.command u32_max
  pub fits : p.msg.data_length ≤ max_payload
  pub whole : length p.bytes ≡ p.msg.data_length
  pub sum : sum_bytes p.msg.data_length p.bytes 0 ≡ p.msg.data_check

-- What every result of `remote_read` on the bytes `bs` has.
abbrev pub Next : Bytes → Arrival → Type 0
Next bs (arrives p e) = IsNext bs p e.bytes
Next bs rejects = Unit
Next bs awaits = Unit

module _ (header bs : Bytes) (m : Message) (good : check_header m ≡ true)
    (read : decode header ≡ some m) where
  checked-Next :
      (e : Endpoint) (body : Bytes)
      → header ++ (body ++ e.bytes) ≡ bs
      → length body ≡ m.data_length
      → Next bs (checked (record { msg = m; len = 0; bytes = body }) e)
  unfolding check_data
  checked-Next e body on_wire whole =
      elim (Bool-cases (check_data (record { msg = m; len = 0; bytes = body }))) [
        | inl t ↦ rw t (record {
          header = header;
          on_wire = on_wire;
          decoded = read;
          magic = (check_header-true m good).0;
          fits = (check_header-true m good).1;
          whole = whole;
          sum = (==_iff _ _).0 t;
        })
        | inr t ↦ rw t tt
      ]

  usb_read_data-Next :
      (d : UsbDriver)
      → IsFaithful d
      → (e : Endpoint) → header ++ e.bytes ≡ bs
      → Next bs (usb_read_data d m e)
  unfolding usb_read_data
  usb_read_data-Next d faithful e on_wire = elim (Bool-cases (m.data_length == 0)) [
    | inl z ↦ rw z (checked-Next e [] on_wire (sym ((==_iff m.data_length 0).0 z)))
    | inr z ↦ rw z (go (d.read m.data_length e) (faithful.reads m.data_length e))
  ]
    where
      go :
          (r : Read)
          → Reads m.data_length e.bytes r
          → Next bs (elim r [
            | read_all out e' ↦ checked (record { msg = m; len = 0; bytes = out }) e'
            | read_failed e' ↦ rejects
            | read_waits ↦ awaits
            | read_unfinished ↦ rejects
          ])
      go (read_all out e') (split, count) =
          checked-Next e' out (ap (λ u. header ++ u) split ∙ on_wire) count
      go (read_failed e') h = tt
      go read_waits h = tt
      go read_unfinished h = tt

usb_read_body-Next :
    (d : UsbDriver)
    → IsFaithful d
    → (bs header : Bytes) (e : Endpoint) → header ++ e.bytes ≡ bs
    → Next bs (usb_read_body d (decode header) e)
unfolding usb_read_body
usb_read_body-Next d faithful bs header e on_wire = elim (Option-cases (decode header)) [
  | inl bad ↦ rw bad tt
  | inr (m, read) ↦ rw read (elim (Bool-cases (check_header m)) [
    | inl good ↦ rw good (usb_read_data-Next header bs m good read d faithful e on_wire)
    | inr bad ↦ rw bad tt
  ])
]

-- For a driver that keeps its contract, as both of the source's do, and whatever the host sends: a
-- packet that the USB transport's `remote_read` returns with 0 has a header with the right magic
-- and a length of at most 4096, data of that length with the right sum, and is the next on the
-- endpoint, with what follows left unread.
pub usb_remote_read-Next :
    (d : UsbDriver) → IsFaithful d → (e : Endpoint) → Next e.bytes (usb_remote_read d e)
unfolding usb_remote_read
usb_remote_read-Next d faithful e = go (d.read header_size e) (faithful.reads header_size e)
  where
    go :
        (r : Read)
        → Reads header_size e.bytes r
        → Next e.bytes (elim r [
          | read_all bs e' ↦ usb_read_body d (decode bs) e'
          | read_failed e' ↦ rejects
          | read_waits ↦ awaits
          | read_unfinished ↦ rejects
        ])
    go (read_all bs e') (split, count) = usb_read_body-Next d faithful e.bytes bs e' split
    go (read_failed e') h = tt
    go read_waits h = tt
    go read_unfinished h = tt
