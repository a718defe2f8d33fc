-- ===== src/Node.antt =====
-- src/afi920_node.cpp: what `Afi920Node` does with a datagram: the check of the E2E header, the
-- three streams, and changes of parameters.
pub mod Types
pub mod Datagram
pub mod Gate
pub mod Rdi
pub mod Shi
pub mod Spi
pub mod Streams
pub mod Parameters
pub mod Threads
pub mod Start
mod Samples
mod Runs
