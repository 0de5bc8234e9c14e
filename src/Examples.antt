-- ===== src/Examples.antt =====
-- The theorems at concrete inputs: a small operating system on which the hypotheses hold, and one
-- instance of each theorem.
mod Toy
mod Transport
mod Http
mod Serving
mod Clients
mod Exchange
mod Wire
mod RoundTrip
mod Ledger
mod Loop
