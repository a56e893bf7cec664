-- ===== src/Tests/Wire.antt =====
-- Input, output and packets at concrete values.
use adbd.Base.{◌≡◌, refl, [], ◌∷◌, ◌++◌, arith, codes, All, List, take, drop}
use adbd.Io.{Turn, give, fault, eintr, IsCalm, Source, Sink, readx, writex, done}
use adbd.Io.Reads.{Exact, readx-Exact, Returns, readx-Returns}
use adbd.Io.Writes.{Wrote, writex-Wrote, writex-done}
use adbd.Packet.{check_header, check_data, Packet, a_wrte, seal}
use adbd.Packet.Wire.{encode, read_body, decode, read_data, remote_read, remote_write, received}
use adbd.Packet.RoundTrip.{IsSendable, arrived, wire, remote_read-remote_write}
use adbd.Packet.Sound.{IsChecked, remote_read-IsChecked}

-- Short reads and an interruption.
abbrev choppy : List Turn
choppy = give 0 ∷ (fault eintr ∷ (give 1 ∷ (give 4 ∷ [])))

abbrev stream : Source
stream = record { bytes = codes "hello, world"; plan = choppy }

abbrev half_written : Sink
half_written = record { written = codes "so "; plan = fault eintr ∷ (give 2 ∷ []) }

readx-Exact_example : Exact 5 [] (codes "hello, world") (readx 5 stream)
readx-Exact_example = readx-Exact 5 stream

readx-Returns_example :
    Returns (take 5 (codes "hello, world")) (drop 5 (codes "hello, world")) (readx 5 stream)
readx-Returns_example = readx-Returns 5 stream (omega arith) (tt, (tt, (tt, (tt, tt))))

writex-Wrote_example : Wrote (codes "so ") (codes "far") (writex (codes "far") half_written)
writex-Wrote_example = writex-Wrote (codes "far") half_written

writex-done_example :
    (s : Sink) × (writex (codes "far") half_written ≡ done s)
    × (s.written ≡ half_written.written ++ codes "far")
    × All IsCalm s.plan
writex-done_example = writex-done (codes "far") half_written (tt, (tt, tt))

-- A WRTE packet from socket 7 to socket 9.
abbrev sample : Packet
sample = record {
  msg = record { command = a_wrte; arg0 = 7; arg1 = 9; data_length = 5; data_check = 0; magic = 0 };
  len = 5;
  bytes = codes "hello";
}

sample-IsSendable : IsSendable sample
sample-IsSendable = omega arith

remote_read-remote_write_example :
    (out : Sink) × (src : Source) × (remote_write (seal sample) half_written ≡ done out)
    × (out.written ≡ half_written.written ++ wire sample)
    × (remote_read (record { bytes = wire sample ++ codes "more"; plan = choppy })
        ≡ received (arrived sample) src)
    × (src.bytes ≡ codes "more")
remote_read-remote_write_example =
    remote_read-remote_write sample half_written (codes "more") choppy sample-IsSendable
      (tt, (tt, tt)) (tt, (tt, (tt, (tt, tt))))

abbrev on_the_wire : Source
on_the_wire = record { bytes = wire sample ++ codes "more"; plan = [] }

remote_read-IsChecked_example :
    IsChecked on_the_wire (arrived sample) (record { bytes = codes "more"; plan = [] })
unfolding remote_read seal readx encode read_body decode check_header read_data check_data
remote_read-IsChecked_example = remote_read-IsChecked on_the_wire refl
