-- ===== src/Tests.antt =====
-- Runs of the definitions at concrete inputs, and each theorem at an input that meets its hypotheses.
mod Transports
mod Pictures
mod CloseAll
mod Requests
mod Jdwp
mod Usb
mod Wire
mod Handler
mod Loop
mod Service
