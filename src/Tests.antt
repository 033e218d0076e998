-- ===== src/Tests.antt =====
-- The theorems at concrete inputs, and runs of the definitions.
mod Bytes
mod Floats
mod Codec
mod Acknowledgments
mod Peers
mod Sessions
mod Managers
mod Delivery
mod Fragments
mod Control
