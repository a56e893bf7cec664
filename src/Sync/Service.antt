-- ===== src/Sync/Service.antt =====
-- The other requests of src/adbd/file_sync_service.c and its loop: a SEND of a link, the mode that a
-- SEND asks for, and the choice of the request.
use adbd.Sync.Transfer.{do_recv, do_list, handle_send_file, do_stat, mkdirs}
use adbd.Base.{
  Option, none, some, ℕ, zero, suc, ◌/◌, ◌%◌, Bool, false, not, [], ◌∷◌, Bytes, codes, ltb, ◌==◌,
  if◌then◌else◌, length,
}
use adbd.Sync.{
  two_words, reply, return_minus_one, fail_message, fail_errno, ask, then_do, whatever, Act,
  id_stat, id_list, id_send, id_recv, id_done, id_data, id_okay, id_quit, sync_data_max, Made,
  Files, State, made, no_parent, exists_already, not_made, fine, minus_one, spent,
}
use adbd.Transport.{c_string}
use Prim.Native.Nat.{bit_and, bit_or}
use adbd.Packet.Wire.{le32}

-- `strrchr(path,',')`: what stands before the last comma and behind it.
unfoldable pub last_comma : Bytes → Option (Bytes × Bytes)
last_comma [] = none
last_comma (c ∷ cs) = elim (last_comma cs) [
  | some r ↦ some (c ∷ r.0, r.1)
  | none ↦ if c == 44 then some ([], cs) else none
]

-- `mode|=((mode>>3)&0070);mode|=((mode>>3)&0007)`
unfoldable pub spread_mode : ℕ → ℕ
spread_mode mode = let m = bit_or mode (bit_and (mode / 8) 56) in bit_or m (bit_and (m / 8) 7)

-- `S_ISLNK`
abbrev pub is_link : ℕ → Bool
is_link mode = mode / 4096 % 16 == 10

module _ (F : Files) where
  -- `symlink`, once more behind `mkdirs` when a directory is missing.
  unfoldable pub link_target : Bytes → Bytes → F.Fs → F.Fs × Made
  unfolding mkdirs
  link_target to path fs =
      let r = F.symlink fs to path in
      elim r.1 [
        | made ↦ r
        | no_parent ↦ F.symlink (mkdirs F path r.0) to path
        | exists_already ↦ r
        | not_made ↦ r
      ]

  unfoldable pub finish_link : Made → Act F (Unit {0})
  unfolding then_do fail_errno whatever return_minus_one reply ask fail_message
  finish_link made = then_do F (ask F 8) (λ head.
      if (two_words F head).0 == id_done
      then reply F (le32 id_okay (le32 0 []))
      else then_do F (whatever F (fail_message F (codes "invalid data message: expected ID_DONE")))
          (λ _. return_minus_one F))
  finish_link no_parent = then_do F (whatever F (fail_errno F)) (λ _. return_minus_one F)
  finish_link exists_already = then_do F (whatever F (fail_errno F)) (λ _. return_minus_one F)
  finish_link not_made = then_do F (whatever F (fail_errno F)) (λ _. return_minus_one F)

  unfoldable pub make_link : Bytes → Bytes → Act F (Unit {0})
  unfolding link_target finish_link
  make_link to path s = let r = link_target to path s.fs in finish_link r.1 (record s { fs = r.0 })

  -- `handle_send_link`; the target is the C string in the buffer, of which the data is all that is
  -- known.
  unfoldable pub handle_send_link : Bytes → Act F (Unit {0})
  unfolding then_do ask whatever fail_message return_minus_one make_link
  handle_send_link path = then_do F (ask F 8) (λ head.
      let w = two_words F head in
      if not (w.0 == id_data)
      then then_do F (whatever F (fail_message F (codes "invalid data message: expected ID_DATA")))
          (λ _. return_minus_one F)
      else if ltb sync_data_max w.1
      then then_do F (whatever F (fail_message F (codes "oversize data message")))
          (λ _. return_minus_one F)
      else then_do F (ask F w.1) (λ bs. make_link (c_string bs) path))

  -- `do_send` behind the parsing of the mode.
  unfoldable pub send_with : ℕ → Bytes → ℕ → Bool → Act F (Unit {0})
  unfolding handle_send_link handle_send_file spread_mode
  send_with f path mode link s =
      let s' = record s { fs = F.unlink s.fs path } in
      if link then handle_send_link path s' else handle_send_file F f path (spread_mode mode) s'

  -- `do_send`. `strtoul(…,NULL,0)` is an argument: `none` is a failure, which sets errno.
  unfoldable pub do_send : (Bytes → Option ℕ) → ℕ → Bytes → Act F (Unit {0})
  unfolding last_comma send_with
  do_send strtoul f path = elim (last_comma path) [
    | none ↦ send_with f path 420 false
    | some r ↦ elim (strtoul r.1) [
      | none ↦ send_with f r.0 420 false
      | some mode ↦ send_with f r.0 (mode % 512) (is_link mode)
    ]
  ]

  -- One request of the service. The result says whether the loop goes on.
  unfoldable pub serve : (Bytes → Option ℕ) → ℕ → Bytes → Act F (Unit {0})
  unfolding do_stat do_list do_send do_recv whatever fail_message then_do return_minus_one
  serve strtoul id name s =
      if id == id_stat
      then do_stat F name s
      else if id == id_list
      then do_list F name s
      else if id == id_send
      then do_send strtoul (suc (length s.source.bytes)) name s
      else if id == id_recv
      then do_recv F name s
      else if id == id_quit
      then return_minus_one F s
      else then_do F (whatever F (fail_message F (codes "unknown command")))
          (λ _. return_minus_one F) s

  -- A step of the loop of `file_sync_service`: the request, its name, the work. A result of -1 ends
  -- the loop.
  unfoldable pub complain : Bytes → Act F Bytes → Act F Bytes
  unfolding whatever fail_message
  complain reason a s = elim (a s) [
    | fine x s' ↦ fine x s'
    | minus_one s' ↦ then_do F (whatever F (fail_message F reason)) (λ _. return_minus_one F) s'
    | spent ↦ spent
  ]

  unfoldable pub sync_request : (Bytes → Option ℕ) → Act F (Unit {0})
  unfolding then_do ask complain whatever fail_message return_minus_one serve
  sync_request strtoul = then_do F (complain (codes "command read failure") (ask F 8)) (λ head.
      let w = two_words F head in
      if ltb 1024 w.1
      then then_do F (whatever F (fail_message F (codes "invalid namelen")))
          (λ _. return_minus_one F)
      else then_do F (complain (codes "filename read failure") (ask F w.1))
          (λ name. serve strtoul w.0 (c_string name)))

  -- `file_sync_service`; each round but the last reads at least 8 bytes.
  unfoldable pub file_sync_service : ℕ → (Bytes → Option ℕ) → State F.Fs → Option (State F.Fs)
  unfolding sync_request
  file_sync_service zero strtoul s = none
  file_sync_service (suc f) strtoul s = elim (sync_request strtoul s) [
    | fine u s' ↦ file_sync_service f strtoul s'
    | minus_one s' ↦ some s'
    | spent ↦ none
  ]
