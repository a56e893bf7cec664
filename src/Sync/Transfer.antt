-- ===== src/Sync/Transfer.antt =====
-- The requests of src/adbd/file_sync_service.c that read and write files: STAT, LIST, RECV, and a SEND
-- of a file.
use adbd.Base.{
  Option, none, some, ℕ, zero, suc, not, List, [], ◌∷◌, ◌++◌, Bytes, codes, ltb, ◌==◌,
  if◌then◌else◌, length,
}
use adbd.Sync.{
  return_value, two_words, whatever, fail_message, return_minus_one, ask, on_fail, then_do,
  fail_errno, reply, Act, id_stat, id_dent, id_done, id_data, id_okay, sync_data_max, Stat, Opening,
  Files, State, opened, enoent, eexist, denied, made, no_parent, exists_already, not_made, fine,
  spent,
}
use adbd.Io.{chunk, failed, done, broken, exhausted}
use adbd.Packet.Wire.{le32}
use adbd.Io.{Source, Sink, writex, adb_read}

-- The directories in front of each '/' of a path behind its first character, shortest first.
unfoldable pub parents : Bytes → Bytes → List Bytes
parents front [] = []
parents front (c ∷ cs) =
    let rest = parents (front ++ (c ∷ [])) cs in if c == 47 then front ∷ rest else rest

module _ (F : Files) where
  unfoldable pub stat_words : Option Stat → Bytes → Bytes
  stat_words none rest = le32 0 (le32 0 (le32 0 rest))
  stat_words (some st) rest = le32 st.st_mode (le32 st.st_size (le32 st.st_mtime rest))

  unfoldable pub do_stat : Bytes → Act F (Unit {0})
  unfolding reply stat_words
  do_stat path s = reply F (le32 id_stat (stat_words (F.lstat s.fs path) [])) s

  unfoldable pub list_entries : Bytes → List Bytes → Act F (Unit {0})
  unfolding return_value then_do reply stat_words
  list_entries path [] s = return_value F tt s
  list_entries path (name ∷ names) s =
      let rest = list_entries path names in
      if ltb 256 (length name) then rest s else elim (F.lstat s.fs (path ++ (47 ∷ name))) [
        | none ↦ rest s
        | some st ↦
            then_do F (reply F (le32 id_dent (stat_words (some st) (le32 (length name) []))))
              (λ _. then_do F (reply F name) (λ _. rest)) s
      ]

  unfoldable pub do_list : Bytes → Act F (Unit {0})
  unfolding return_value then_do reply list_entries stat_words
  do_list path s =
      then_do F
        (elim (F.entries s.fs path) [
          | none ↦ return_value F tt
          | some names ↦ list_entries path names
        ])
        (λ _. reply F (le32 id_done (stat_words none (le32 0 [])))) s

  -- `mkdirs`, whose result nobody looks at: it stops at the first failure other than EEXIST.
  unfoldable pub make_parents : List Bytes → F.Fs → F.Fs
  make_parents [] fs = fs
  make_parents (d ∷ ds) fs =
      let r = F.mkdir fs d in
      elim r.1 [
        | made ↦ make_parents ds r.0
        | no_parent ↦ r.0
        | exists_already ↦ make_parents ds r.0
        | not_made ↦ r.0
      ]

  unfoldable pub mkdirs : Bytes → F.Fs → F.Fs
  unfolding make_parents parents
  mkdirs [] fs = fs
  mkdirs (c ∷ cs) fs = if c == 47 then make_parents (parents (c ∷ []) cs) fs else fs

  -- The three attempts to open the file of `handle_send_file`.
  unfoldable pub open_existing : Bytes → ℕ → F.Fs × Opening → F.Fs × Opening
  open_existing path mode r = elim r.1 [
    | opened k ↦ r
    | enoent ↦ r
    | eexist ↦ F.open_write r.0 path mode
    | denied ↦ r
  ]

  unfoldable pub open_target : Bytes → ℕ → F.Fs → F.Fs × Opening
  unfolding open_existing mkdirs
  open_target path mode fs =
      let r = F.create_new fs path mode in
      elim r.1 [
        | opened k ↦ r
        | enoent ↦ open_existing path mode (F.create_new (mkdirs path r.0) path mode)
        | eexist ↦ open_existing path mode r
        | denied ↦ r
      ]

  unfoldable pub drop_file : Bytes → State F.Fs → State F.Fs
  drop_file path s = record s { fs = F.unlink s.fs path }

  -- A write to the file, whose failure drops the file and is reported.
  unfoldable pub write_chunk : Bytes → Option Sink → Bytes → Act F (Option Sink)
  unfolding return_value then_do fail_errno drop_file
  write_chunk path none bs s = return_value F none s
  write_chunk path (some k) bs s = elim (writex bs k) [
    | done k' ↦ fine (some k') s
    | broken k' ↦ then_do F (fail_errno F) (λ _. return_value F none) (drop_file path s)
    | exhausted ↦ spent
  ]

  -- The end of `handle_send_file` behind DONE: close, utime, OKAY.
  unfoldable pub finish_file : Bytes → ℕ → Option Sink → Act F (Unit {0})
  unfolding return_value reply
  finish_file path timestamp none s = return_value F tt s
  finish_file path timestamp (some k) s =
      reply F (le32 id_okay (le32 0 []))
        (record s { fs = F.utime (F.store s.fs path k.written) path timestamp })

  -- The body of the loop of `handle_send_file` behind the message's two words; `again` is the next
  -- round. The label `fail` drops the file.
  unfoldable pub take_message :
      Bytes → Option Sink → (Option Sink → Act F (Unit {0})) → Bytes → Act F (Unit {0})
  unfolding then_do on_fail ask return_minus_one fail_message whatever write_chunk finish_file
      drop_file
  take_message path k again head =
      let w = two_words F head in
      if not (w.0 == id_data)
      then (if w.0 == id_done
          then finish_file path w.1 k
          else on_fail F (drop_file path) (
              then_do F (whatever F (fail_message F (codes "invalid data message")))
                (λ _. return_minus_one F)))
      else if ltb sync_data_max w.1
      then on_fail F (drop_file path) (
          then_do F (whatever F (fail_message F (codes "oversize data message")))
            (λ _. return_minus_one F))
      else then_do F (on_fail F (drop_file path) (ask F w.1))
          (λ bs. then_do F (write_chunk path k bs) again)

  -- The loop of `handle_send_file`; each round but the last reads at least 8 bytes.
  unfoldable pub send_loop : ℕ → Bytes → Option Sink → Act F (Unit {0})
  unfolding then_do on_fail ask drop_file take_message
  send_loop zero path k = λ _. spent
  send_loop (suc f) path k =
      then_do F (on_fail F (drop_file path) (ask F 8))
        (take_message path k (λ k'. send_loop f path k'))

  -- `handle_send_file` behind the attempts to open the file.
  unfoldable pub send_to : ℕ → Bytes → F.Fs × Opening → Act F (Unit {0})
  unfolding then_do fail_errno send_loop
  send_to f path (fs, opened k) s = send_loop f path (some k) (record s { fs = fs })
  send_to f path (fs, enoent) s =
      then_do F (fail_errno F) (λ _. send_loop f path none) (record s { fs = fs })
  send_to f path (fs, eexist) s =
      then_do F (fail_errno F) (λ _. send_loop f path none) (record s { fs = fs })
  send_to f path (fs, denied) s =
      then_do F (fail_errno F) (λ _. send_loop f path none) (record s { fs = fs })

  unfoldable pub handle_send_file : ℕ → Bytes → ℕ → Act F (Unit {0})
  unfolding open_target send_to
  handle_send_file f path mode s = send_to f path (open_target path mode s.fs) s

  -- The loop of `do_recv` over the file: each round but the last reads at least a byte.
  unfoldable pub recv_loop : ℕ → Source → Act F (Unit {0})
  unfolding return_value then_do reply fail_errno
  recv_loop zero file s = spent
  recv_loop (suc f) file s = elim (adb_read sync_data_max file.bytes file.plan) [
    | chunk [] file' ↦ reply F (le32 id_done (le32 0 [])) s
    | chunk (b ∷ bs) file' ↦
        then_do F (reply F (le32 id_data (le32 (length (b ∷ bs)) [])))
          (λ _. then_do F (reply F (b ∷ bs)) (λ _. recv_loop f file')) s
    | failed e file' ↦ fail_errno F s
  ]

  unfoldable pub do_recv : Bytes → Act F (Unit {0})
  unfolding fail_errno recv_loop
  do_recv path s = elim (F.open_read s.fs path) [
    | none ↦ fail_errno F s
    | some file ↦ recv_loop (suc (length file.bytes)) file s
  ]
