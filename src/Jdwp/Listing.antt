-- ===== src/Jdwp/Listing.antt =====
-- `jdwp_process_list` and `jdwp_process_list_msg` of src/adbd/jdwp_service.c keep to their buffer.
use adbd.Base.{◌≤◌}
use adbd.Base.{
  Option, none, some, ℕ, suc, ◌-◌, ◌<◌, ◌≡◌, refl, ap, Bool, true, false, List, [], ◌∷◌, ◌++◌,
  arith, Bytes, leb, if◌then◌else◌, length, take, length-append,
}
use adbd.Jdwp.{pid_line, jdwp_process_list, hex4, jdwp_process_list_msg}

-- The pids that are known, and their lines.
abbrev pub known : List (Option ℕ) → List ℕ
known [] = []
known (none ∷ ps) = known ps
known (some pid ∷ ps) = pid ∷ known ps

abbrev pub lines : List ℕ → Bytes
lines [] = []
lines (pid ∷ pids) = pid_line pid ++ lines pids

-- Whole lines of the first `m` known processes, shorter than the room, which leaves a byte for the
-- terminator.
abbrev pub Lists : List (Option ℕ) → ℕ → Bytes → Type 0
Lists ps room text = (m : ℕ) × (text ≡ lines (take m (known ps))) × (length text < room)

jdwp_process_list-Lists :
    (ps : List (Option ℕ)) (room : ℕ) → 0 < room → Lists ps room (jdwp_process_list ps room)
unfolding jdwp_process_list
jdwp_process_list-Lists [] room h = (0, refl, h)
jdwp_process_list-Lists (none ∷ ps) room h = jdwp_process_list-Lists ps room h
jdwp_process_list-Lists (some pid ∷ ps) room h =
    go (leb room (length (pid_line pid))) refl
      (λ p. jdwp_process_list-Lists ps (room - length (pid_line pid)) p)
  where
    go :
        (b : Bool)
        → leb room (length (pid_line pid)) ≡ b
        → (0 < room - length (pid_line pid)
            → Lists ps
                (room - length (pid_line pid))
                (jdwp_process_list ps (room - length (pid_line pid))))
        → Lists
            (some pid ∷ ps)
            room
            (if b then [] else pid_line pid ++ jdwp_process_list ps (room - length (pid_line pid)))
    go true e ih = (0, refl, h)
    go false e ih =
        let fits : length (pid_line pid) < room = ground arith in
        let (m, e', l) = ih (omega arith) in
        (
          suc m,
          ap (λ t. pid_line pid ++ t) e',
          omega (
            arith,
            length-append (pid_line pid) (jdwp_process_list ps (room - length (pid_line pid))),
          ),
        )

-- For a buffer of more than 4 and at most 65536 bytes: the message is four hexadecimal digits of its text's length
-- and then the text, which is the whole lines of the first so many processes with a known pid; all of
-- it, with the terminator behind it, stays inside the buffer.
pub jdwp_process_list_msg-Lists :
    (ps : List (Option ℕ)) (bufferlen : ℕ)
    → 4 < bufferlen
    → bufferlen ≤ 65536
    → (text : Bytes) × (jdwp_process_list_msg ps bufferlen ≡ hex4 (length text) ++ text)
      × Lists ps (bufferlen - 4) text
      × (length (jdwp_process_list_msg ps bufferlen) < bufferlen)
unfolding jdwp_process_list_msg hex4
jdwp_process_list_msg-Lists ps bufferlen h h' =
    let (m, e, l) = jdwp_process_list-Lists ps (bufferlen - 4) (omega arith) in
    (jdwp_process_list ps (bufferlen - 4), refl, (m, e, l), omega arith)
