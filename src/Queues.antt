-- ===== src/Queues.antt =====
-- services/queues: the decoding helpers (decode.py) and the queue service (service.py).
pub mod Decode
pub mod Kernel
pub mod Service
pub mod Payload
pub mod Node
pub mod Shown
pub mod Refines
pub mod Devices
pub mod Listed
pub mod Entries
pub mod Lengths
pub mod Inflight
pub mod Window
pub mod Prp
pub mod Flat
pub mod Transfer
