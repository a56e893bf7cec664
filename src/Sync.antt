-- ===== src/Sync.antt =====
-- The file service of src/adbd/file_sync_service.c: requests and answers on one descriptor. The file
-- system is an argument, the interface `Files`; a file's own descriptor is a source or a sink.
pub mod Transfer
pub mod Service
pub mod Stream
pub mod Recv
pub mod Storing
pub mod Send
use adbd.Base.{Option, ℕ, ◌+◌, ◌*◌, not, List, [], ◌∷◌, Bytes, length}
use adbd.Io.{Source, readx, Sink, writex, got, lost, unfinished, done, broken, exhausted}
use adbd.Packet.Wire.{le32}

-- The words MKID('S','T','A','T') and so on.
abbrev pub id_stat : ℕ
id_stat = 0x5441_5453

abbrev pub id_list : ℕ
id_list = 0x5453_494c

abbrev pub id_send : ℕ
id_send = 0x444e_4553

abbrev pub id_recv : ℕ
id_recv = 0x5643_4552

abbrev pub id_dent : ℕ
id_dent = 0x544e_4544

abbrev pub id_done : ℕ
id_done = 0x454e_4f44

abbrev pub id_data : ℕ
id_data = 0x4154_4144

abbrev pub id_okay : ℕ
id_okay = 0x5941_4b4f

abbrev pub id_fail : ℕ
id_fail = 0x4c49_4146

abbrev pub id_quit : ℕ
id_quit = 0x5449_5551

abbrev pub sync_data_max : ℕ
sync_data_max = 65536

-- The members of a `struct stat` that the service sends.
pub record Stat : Type 0 where
  pub st_mode : ℕ
  pub st_size : ℕ
  pub st_mtime : ℕ

-- What opening a file to write gives: a descriptor, or ENOENT, EEXIST, another errno.
pub data Opening : Type 0 where
  opened : Sink → Opening
  enoent eexist denied : Opening

-- What symlink and mkdir give: 0, or ENOENT, EEXIST, another errno.
pub data Made : Type 0 where
  made : Made
  no_parent exists_already not_made : Made

-- The file system's calls. `store` is what a path holds after the writes to its descriptor;
-- `strerror` is the text of the last errno.
pub record Files : Type 1 where
  pub Fs : Type 0
  pub lstat : Fs → Bytes → Option Stat
  pub entries : Fs → Bytes → Option (List Bytes)
  pub open_read : Fs → Bytes → Option Source
  pub create_new : Fs → Bytes → ℕ → Fs × Opening
  pub open_write : Fs → Bytes → ℕ → Fs × Opening
  pub store : Fs → Bytes → Bytes → Fs
  pub mkdir : Fs → Bytes → Fs × Made
  pub unlink : Fs → Bytes → Fs
  pub symlink : Fs → Bytes → Bytes → Fs × Made
  pub utime : Fs → Bytes → ℕ → Fs
  pub strerror : Fs → Bytes

-- How a function of the service ends: with 0 and a result, with -1, or short of fuel.
pub data Res (S A : Type 0) : Type 0 where
  fine : A → S → Res S A
  minus_one : S → Res S A
  spent : Res S A

pub record State (Fs : Type 0) : Type 0 where
  pub source : Source
  pub sink : Sink
  pub fs : Fs

module _ (F : Files) where
  abbrev pub Act : Type 0 → Type 0
  Act A = State F.Fs → Res (State F.Fs) A

  unfoldable pub return_value : {A : Type 0} → A → Act A
  return_value a s = fine a s

  unfoldable pub bind_res : {A B : Type 0} → Res (State F.Fs) A → (A → Act B) → Res (State F.Fs) B
  bind_res (fine a s) f = f a s
  bind_res (minus_one s) f = minus_one s
  bind_res spent f = spent

  unfoldable pub then_do : {A B : Type 0} → Act A → (A → Act B) → Act B
  unfolding bind_res
  then_do a f s = bind_res (a s) f

  -- `goto fail`: what a function still does before it returns -1.
  unfoldable pub on_fail : {A : Type 0} → (State F.Fs → State F.Fs) → Act A → Act A
  on_fail g a s = elim (a s) [
    | fine x s' ↦ fine x s'
    | minus_one s' ↦ minus_one (g s')
    | spent ↦ spent
  ]

  unfoldable pub return_minus_one : {A : Type 0} → Act A
  return_minus_one s = minus_one s

  -- `writex(s,…)`
  unfoldable pub reply : Bytes → Act (Unit {0})
  reply bs s = elim (writex bs s.sink) [
    | done k ↦ fine tt (record s { sink = k })
    | broken k ↦ minus_one (record s { sink = k })
    | exhausted ↦ spent
  ]

  -- `readx(s,…,n)`
  unfoldable pub ask : ℕ → Act Bytes
  ask n s = elim (readx n s.source) [
    | got bs k ↦ fine bs (record s { source = k })
    | lost k ↦ minus_one (record s { source = k })
    | unfinished ↦ spent
  ]

  -- The two words of a `data`, `req` or `status` message.
  abbrev pub two_words : Bytes → ℕ × ℕ
  two_words (a ∷ (b ∷ (c ∷ (d ∷ (e ∷ (f ∷ (g ∷ (h ∷ [])))))))) =
      (a + b * 256 + c * 65536 + d * 16777216, e + f * 256 + g * 65536 + h * 16777216)
  two_words _ = (0, 0)

  unfoldable pub fail_message : Bytes → Act (Unit {0})
  unfolding then_do reply
  fail_message reason = then_do (reply (le32 id_fail (le32 (length reason) []))) (λ _. reply reason)

  unfoldable pub fail_errno : Act (Unit {0})
  unfolding fail_message
  fail_errno s = fail_message (F.strerror s.fs) s

  -- A result that the source does not look at.
  unfoldable pub whatever : Act (Unit {0}) → Act (Unit {0})
  whatever a s = elim (a s) [ fine u s' ↦ fine tt s' | minus_one s' ↦ fine tt s' | spent ↦ spent ]
