-- ===== src/Tests.antt =====
-- Concrete runs of the code, and the theorems at concrete inputs.
mod Setup
mod Source
mod Command
mod Queue
mod Loop
mod Json
mod Sockets
