-- ===== src/Examples.antt =====
-- The theorems at concrete inputs.
mod Texts
mod Ranges
mod Buffers
mod Accesses
mod Hashes
mod Dates
mod Pages
mod Queues
mod Requests
mod Headers
mod Programs
mod Lives
