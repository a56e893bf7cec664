-- ===== src/Tests/Transports.antt =====
-- The list of transports and the messages that change it, at concrete values.
use adbd.Base.{inr, inl, none, some, ◌≡◌, refl, true, false, [], ◌∷◌, ◌++◌, arith, codes}
use adbd.Io.{Sink, Source, give, eintr, fault, done}
use adbd.Registry.Messages.{
  Tmsg, tmsg_bytes, le64, fetched, transport_write_action, transport_read_action, read_packet,
  write_packet, transport_read_action-transport_write_action,
}
use adbd.Registry.Registration.{
  Transports, IsSound, Passes, begins, goes_on, registers, removes, Passes-IsSound,
}
use adbd.Registry.Registration.{transport_registration_func, start_up, put_in, take_out}
use adbd.Sockets.{unlink}

abbrev message : Tmsg
message = record { transport = 140187732541440; action = 1 }

abbrev pipe : Sink
pipe = record { written = codes "x"; plan = give 5 ∷ (fault eintr ∷ []) }

transport_read_action-transport_write_action_example :
    (out' out'' : Sink) × (s s' : Source) × (transport_write_action message
        (0 ∷ 0 ∷ 0 ∷ 0 ∷ [])
        pipe
      ≡ done out')
    × (out'.written ≡ codes "x" ++ tmsg_bytes message (0 ∷ 0 ∷ 0 ∷ 0 ∷ []))
    × (transport_read_action (record {
      bytes = tmsg_bytes message (0 ∷ 0 ∷ 0 ∷ 0 ∷ []) ++ codes "y";
      plan = give 3 ∷ [];
    })
        ≡ fetched message s)
    × (s.bytes ≡ codes "y")
    × (write_packet 140187732541440 pipe ≡ done out'')
    × (out''.written ≡ codes "x" ++ le64 140187732541440 [])
    × (read_packet (record { bytes = le64 140187732541440 [] ++ codes "y"; plan = give 3 ∷ [] })
        ≡ fetched 140187732541440 s')
    × (s'.bytes ≡ codes "y")
transport_read_action-transport_write_action_example =
    transport_read_action-transport_write_action message (0 ∷ 0 ∷ 0 ∷ 0 ∷ []) 140187732541440 pipe
      (codes "y") (give 3 ∷ []) (omega arith) (omega arith) (omega arith) refl (tt, (tt, tt))
      (tt, tt)

abbrev nothing : Transports
nothing = record { transport_list = []; started = []; fds_closed = []; freed = [] }

abbrev one : Transports
one = record { transport_list = 64 ∷ []; started = (64, 5, 6) ∷ []; fds_closed = []; freed = [] }

abbrev two : Transports
two = record {
  transport_list = 64 ∷ 80 ∷ [];
  started = (64, 5, 6) ∷ [];
  fds_closed = [];
  freed = [];
}

abbrev second : Transports
second = record { transport_list = 80 ∷ []; started = []; fds_closed = 5 ∷ 6 ∷ []; freed = 64 ∷ [] }

nothing-IsSound : IsSound nothing
nothing-IsSound = record { once = tt; live = λ t i. absurd i; freed_once = tt }

passes : Passes nothing second
unfolding transport_registration_func start_up put_in take_out unlink
passes =
    goes_on
      (goes_on
        (goes_on begins (registers nothing one 64 false true (some (5, 6)) (λ i. i) (λ i. i) refl))
        (registers one two 80 true true none (λ i. elim i [ inl e ↦ omega arith | inr f ↦ f ])
          (λ i. i) refl))
      (removes two second 64 false true none (inl refl) refl)

Passes-IsSound_example : IsSound second
Passes-IsSound_example = Passes-IsSound nothing second nothing-IsSound passes
