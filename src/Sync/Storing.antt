-- ===== src/Sync/Storing.antt =====
-- The loop of `handle_send_file` in src/adbd/file_sync_service.c over the messages of a client.
use adbd.Packet.RoundTrip.{Returns-got}
use adbd.Sync.Recv.{reply-fine}
use adbd.Sync.Transfer.{drop_file, write_chunk, finish_file, take_message, send_loop}
use adbd.Sync.{
  bind_res, Act, then_do, on_fail, ask, id_done, id_data, id_okay, sync_data_max, Files, Res, State,
  fine, minus_one, spent,
}
use adbd.Sync.Stream.{Carries, word-le32, over, more}
use adbd.Base.{Option}
use adbd.Base.{zero, ap, subst, ◌∙◌, append-nil, append_assoc}
use adbd.Base.{
  some, ℕ, suc, ◌^◌, ◌≤◌, ◌<◌, ◌≡◌, refl, subst₂, false, List, [], ◌++◌, arith, Bytes, All, ltb,
  length, length-append, take_left, drop_left,
}
use adbd.Io.{Turn, IsCalm, Source, readx, Sink, writex, got, done}
use adbd.Packet.Wire.{le32}
use adbd.Io.Reads.{Returns, readx-Returns}
use adbd.Io.Writes.{writex-done}

module _ (F : Files) where
  pub ask-got :
      (n : ℕ) (c : Bytes) (k : Source) (s : State F.Fs)
      → readx n s.source ≡ got c k
      → ask F n s ≡ fine c (record s { source = k })
  unfolding ask
  ask-got n c k s e = rw (ask, e) refl

  pub then_do-fine :
      {A B : Type 0}
      → (a : Act F A) (g : A → Act F B) (s s' : State F.Fs) (x : A) → a s ≡ fine x s'
      → then_do F a g s ≡ g x s'
  unfolding then_do bind_res
  then_do-fine a g s s' x e = rw (then_do, e) refl

  pub on_fail-fine :
      {A : Type 0}
      → (h : State F.Fs → State F.Fs) (a : Act F A) (s s' : State F.Fs) (x : A) → a s ≡ fine x s'
      → on_fail F h a s ≡ fine x s'
  unfolding on_fail
  on_fail-fine h a s s' x e = rw (on_fail, e) refl

  pub write_chunk-fine :
      (path c : Bytes) (k k' : Sink) (s : State F.Fs)
      → writex c k ≡ done k'
      → write_chunk F path (some k) c s ≡ fine (some k') s
  unfolding write_chunk
  write_chunk-fine path c k k' s e = rw (write_chunk, e) refl

  pub ask-fine :
      (c rest : Bytes) (ps : List Turn) (s : State F.Fs)
      → s.source ≡ record { bytes = c ++ rest; plan = ps }
      → All IsCalm ps
      → (qs : List Turn) × (ask F (length c) s
          ≡ fine c (record s { source = record { bytes = rest; plan = qs } }))
        × All IsCalm qs
  ask-fine c rest ps s e calm =
      let src : Source = record { bytes = c ++ rest; plan = ps } in
      let r = readx-Returns (length c) src (omega (arith, length-append c rest)) calm in
      let r' =
        subst₂ (λ x y. Returns x y (readx (length c) src)) (take_left c rest) (drop_left c rest)
          r in
      let (qs, e', calm') = Returns-got r' in
      (qs, ask-got (length c) c _ s (ap (readx (length c)) e ∙ e'), calm')

  pub take_message-data :
      (path c : Bytes) (k k' : Sink) (again : Option Sink → Act F (Unit {0})) (s1 s2 : State F.Fs)
      → length c ≤ sync_data_max
      → ask F (length c) s1 ≡ fine c s2
      → writex c k ≡ done k'
      → take_message F path (some k) again (le32 id_data (le32 (length c) [])) s1
        ≡ again (some k') s2
  unfolding take_message
  take_message-data path c k k' again s1 s2 h e2 e3 =
      let back = word-le32 (length c) (omega arith) in
      let room : ltb sync_data_max (length c) ≡ false = ground arith in
      rw (back, room)
        (then_do-fine (on_fail F (drop_file F path) (ask F (length c)))
            (λ bs. then_do F (write_chunk F path (some k) bs) again) s1 s2 c
            (on_fail-fine (drop_file F path) (ask F (length c)) s1 s2 c e2)
          ∙ then_do-fine (write_chunk F path (some k) c) again s2 s2 (some k')
              (write_chunk-fine path c k k' s2 e3))

  pub send_loop-head :
      (f : ℕ) (path head : Bytes) (k : Sink) (s s1 : State F.Fs)
      → ask F 8 s ≡ fine head s1
      → send_loop F (suc f) path (some k) s
        ≡ take_message F path (some k) (λ k'. send_loop F f path k') head s1
  unfolding send_loop
  send_loop-head f path head k s s1 e =
      then_do-fine (on_fail F (drop_file F path) (ask F 8))
        (take_message F path (some k) (λ k'. send_loop F f path k')) s s1 head
        (on_fail-fine (drop_file F path) (ask F 8) s s1 head e)

  pub send_loop-data :
      (f : ℕ) (path c : Bytes) (k k' : Sink) (s s1 s2 : State F.Fs)
      → length c ≤ sync_data_max
      → ask F 8 s ≡ fine (le32 id_data (le32 (length c) [])) s1
      → ask F (length c) s1 ≡ fine c s2
      → writex c k ≡ done k'
      → send_loop F (suc f) path (some k) s ≡ send_loop F f path (some k') s2
  send_loop-data f path c k k' s s1 s2 h e1 e2 e3 =
      send_loop-head f path (le32 id_data (le32 (length c) [])) k s s1 e1
      ∙ take_message-data path c k k' (λ k'. send_loop F f path k') s1 s2 h e2 e3

  pub take_message-done :
      (path : Bytes) (time : ℕ) (k : Sink) (again : Option Sink → Act F (Unit {0}))
      (s1 : State F.Fs)
      → time < 2 ^ 32
      → take_message F path (some k) again (le32 id_done (le32 time [])) s1
        ≡ finish_file F path time (some k) s1
  unfolding take_message
  take_message-done path time k again s1 h = let back = word-le32 time h in rw back refl

  pub send_loop-done :
      (f : ℕ) (path : Bytes) (time : ℕ) (k : Sink) (s s1 : State F.Fs)
      → time < 2 ^ 32
      → ask F 8 s ≡ fine (le32 id_done (le32 time [])) s1
      → send_loop F (suc f) path (some k) s ≡ finish_file F path time (some k) s1
  send_loop-done f path time k s s1 h e1 =
      send_loop-head f path (le32 id_done (le32 time [])) k s s1 e1
      ∙ take_message-done path time k (λ k'. send_loop F f path k') s1 h

  -- The end of a run that stored `bs` under the path, read up to `rest` and answered OKAY.
  abbrev pub Stored : Bytes → ℕ → Bytes → Bytes → State F.Fs → Res (State F.Fs) (Unit {0}) → Type 0
  Stored path time bs rest s (fine u s') =
      (s'.fs ≡ F.utime (F.store s.fs path bs) path time)
      × (s'.source.bytes ≡ rest)
      × (s'.sink.written ≡ s.sink.written ++ le32 id_okay (le32 0 []))
  Stored path time bs rest s (minus_one s') = ⊥
  Stored path time bs rest s spent = ⊥

  pub finish_file-Stored :
      (path : Bytes) (time : ℕ) (k : Sink) (s : State F.Fs)
      → All IsCalm s.sink.plan
      → Stored path time k.written s.source.bytes s (finish_file F path time (some k) s)
  unfolding finish_file
  finish_file-Stored path time k s calm =
      let (k', e, w, c) =
        reply-fine F (le32 id_okay (le32 0 []))
          (record s { fs = F.utime (F.store s.fs path k.written) path time }) calm in
      rw e (refl, refl, w)

  pub send_loop-Stored :
      (f : ℕ) (path : Bytes) (time : ℕ) (bs stream rest : Bytes) (ps : List Turn) (k : Sink)
      (s : State F.Fs)
      → time < 2 ^ 32
      → Carries time bs stream
      → length stream < f
      → s.source ≡ record { bytes = stream ++ rest; plan = ps }
      → All IsCalm ps
      → All IsCalm k.plan
      → All IsCalm s.sink.plan
      → Stored path time (k.written ++ bs) rest s (send_loop F f path (some k) s)
  send_loop-Stored zero path time bs stream rest ps k s t cr h e c ck cs = absurd (omega arith)
  send_loop-Stored (suc f) path time _ _ rest ps k s t over h e c ck cs =
      let (qs, e1, c1) = ask-fine (le32 id_done (le32 time [])) rest ps s e c in
      rw (send_loop-done f path time k s _ t e1, append-nil)
        (finish_file-Stored path time k (record s { source = record { bytes = rest; plan = qs } })
          cs)
  send_loop-Stored (suc f) path time _ _ rest ps k s t (more c bs stream p q cr) h e calm ck cs =
      let head = le32 id_data (le32 (length c) []) in
      let (qs, e1, c1) =
        ask-fine head (c ++ (stream ++ rest)) ps s
          (e
            ∙ ap (λ b. record { bytes = b; plan = ps })
                (append_assoc head (c ++ stream) rest
                  ∙ ap (λ b. head ++ b) (append_assoc c stream rest)))
          calm in
      let s1 = record s { source = record { bytes = c ++ (stream ++ rest); plan = qs } } in
      let (rs, e2, c2) = ask-fine c (stream ++ rest) qs s1 refl c1 in
      let (k', e3, w, c3) = writex-done c k ck in
      let ih =
        send_loop-Stored f path time bs stream rest rs k'
          (record s { source = record { bytes = stream ++ rest; plan = rs } }) t cr
          (omega (arith, length-append c stream)) refl c2 c3 cs in
      rw (send_loop-data f path c k k' s s1 _ q e1 e2 e3) (
        subst
          (λ b. Stored path time b rest s (
            send_loop F f path (some k')
              (record s { source = record { bytes = stream ++ rest; plan = rs } })))
          (ap (λ b. b ++ bs) w ∙ append_assoc k.written c bs) ih)
