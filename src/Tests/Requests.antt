-- ===== src/Tests/Requests.antt =====
-- Requests to the smart socket, serial numbers and services at concrete values.
use adbd.Sockets.Smart.Serials.{skip_host_serial-port}
use adbd.Sockets.Smart.Requests.{smart_run-connects, smart_run}
use adbd.Base.{none, some, ◌≡◌, refl, false, List, [], ◌∷◌, arith, Bytes, codes}
use adbd.Sockets.Smart.{skip_host_serial, reaches, connects}
use adbd.Jdwp.{hex4}
use adbd.Transport.{c_string, starts_with}

-- "000bhost:status" in four packets, one of them empty.
abbrev packets : List Bytes
packets = codes "00" ∷ (codes "0bho" ∷ ([] ∷ (codes "st:status" ∷ [])))

smart_run-connects_example : smart_run (reaches false) none packets ≡ connects (codes "host:status")
unfolding c_string hex4
smart_run-connects_example =
    smart_run-connects (codes "host:status") (omega arith) (omega arith) refl packets refl

skip_host_serial-port_example :
    skip_host_serial (codes "10.0.0.2:5555:shell:ls") ≡ some (codes ":shell:ls")
unfolding starts_with
skip_host_serial-port_example =
    skip_host_serial-port (codes "10.0.0.2") b'5' (codes "555") (codes "shell:ls")
      (refl, (refl, (refl, (refl, (refl, (refl, (refl, (refl, tt))))))))
      (refl, (refl, (refl, (refl, tt)))) (refl, refl, refl, refl)
