-- ===== src/Packet/Sound.antt =====
-- What `remote_read` of src/adbd/transport_local.c lets through has passed both checks.
use adbd.Io.Reads.{readx-Exact, Exact}
use adbd.Io.{unfinished, lost, got, readx, Got, Source}
use adbd.Packet.{
  sum_bytes, max_payload, u32_max, bit_xor, check_data, check_header, Message, Packet,
}
use adbd.Base.{
  refl, arith, sym, length, ◌≤◌, ◌++◌, ==_iff, ap, zero-add, ◌∙◌, Option-cases, subst₂, [], inr,
  inl, Bool-cases, some, true, Bytes, ◌≡◌,
}
use adbd.Packet.Wire.{decode, header_size, received, read_body, read_data, remote_read}

-- A packet read from `s`, with `s'` behind it: it has the right magic and sum, is no longer than
-- `max_payload`, has its whole data, and is what stood on the wire.
pub record IsChecked (s : Source) (p : Packet) (s' : Source) : Type 0 where
  pub header : Bytes
  pub on_wire : header ++ (p.bytes ++ s'.bytes) ≡ s.bytes
  pub decoded : decode header ≡ some p.msg
  pub magic : p.msg.magic ≡ bit_xor p.msg.command u32_max
  pub fits : p.msg.data_length ≤ max_payload
  pub whole : length p.bytes ≡ p.msg.data_length
  pub sum : sum_bytes p.msg.data_length p.bytes 0 ≡ p.msg.data_check

-- The part of it that the data brings.
record HasData (m : Message) (s : Source) (p : Packet) (s' : Source) : Type 0 where
  msg : p.msg ≡ m
  on_wire : p.bytes ++ s'.bytes ≡ s.bytes
  whole : length p.bytes ≡ p.msg.data_length
  sum : sum_bytes p.msg.data_length p.bytes 0 ≡ p.msg.data_check

pub check_header-true :
    (m : Message)
    → check_header m ≡ true
    → (m.magic ≡ bit_xor m.command u32_max) × (m.data_length ≤ max_payload)
unfolding check_header
check_header-true m h = (ground arith, ground arith)

module _ {p : Packet} {s' : Source} where
  read_data-HasData : (m : Message) (s : Source) → read_data m s ≡ received p s' → HasData m s p s'
  unfolding read_data check_data
  read_data-HasData m s h = go (readx m.data_length s) refl (readx-Exact m.data_length s)
    where
      go :
          (g : Got)
          → readx m.data_length s ≡ g
          → Exact m.data_length [] s.bytes g
          → HasData m s p s'
      go (got bs t) e (split, count) =
          let h' = rw (e, read_data) at h in
          elim (Bool-cases (check_data (record { msg = m; len = 0; bytes = bs }))) [
            | inl good ↦
                let h'' = rw good at h' in
                let ps : record { msg = m; len = 0; bytes = bs } ≡ p = cc in
                let ss : t ≡ s' = cc in
                subst₂ (λ p s'. HasData m s p s') ps ss
                  (record {
                    msg = refl;
                    on_wire = split;
                    whole = count ∙ zero-add m.data_length;
                    sum = (==_iff _ _).0 good;
                  })
            | inr bad ↦ let h'' = rw bad at h' in cc
          ]
      go (lost t) e x = let h' = rw (e, read_data) at h in cc
      go unfinished e x = absurd x

  read_body-HasData :
      (m : Message) (s : Source)
      → read_body (some m) s ≡ received p s'
      → (check_header m ≡ true) × HasData m s p s'
  unfolding read_body
  read_body-HasData m s h = elim (Bool-cases (check_header m)) [
    | inl good ↦ (good, read_data-HasData m s (rw good at h))
    | inr bad ↦ let h' = rw bad at h in cc
  ]

  -- Whatever is on the wire and whatever the kernel's calls do: a packet that `remote_read` returns
  -- with 0 has a header with the right magic and a length of at most 4096, data of that length with
  -- the right sum, and is the next packet on the wire, with what follows left unread.
  pub remote_read-IsChecked : (s : Source) → remote_read s ≡ received p s' → IsChecked s p s'
  unfolding remote_read
  remote_read-IsChecked s h = go (readx header_size s) refl (readx-Exact header_size s)
    where
      go : (g : Got) → readx header_size s ≡ g → Exact header_size [] s.bytes g → IsChecked s p s'
      go (got bs t) e (split, count) =
          let h' = rw (e, remote_read) at h in
          elim (Option-cases (decode bs)) [
            | inl bad ↦ let h'' = rw bad at h' in unfold read_body in cc
            | inr (m, good) ↦
                let (ok, d) = read_body-HasData m t (rw good at h') in
                let (magic, fits) = check_header-true m ok in
                record {
                  header = bs;
                  on_wire = ap (λ u. bs ++ u) d.on_wire ∙ split;
                  decoded = good ∙ ap some (sym d.msg);
                  magic = rw d.msg magic;
                  fits = rw d.msg fits;
                  whole = d.whole;
                  sum = d.sum;
                }
          ]
      go (lost t) e x = let h' = rw (e, remote_read) at h in cc
      go unfinished e x = absurd x
