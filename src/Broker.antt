-- ===== src/Broker.antt =====
-- internal/broker: the connection with its topology, publishing with confirms, the consumers with
-- their retry and dead-letter path, and the suppression of duplicates.
pub mod Dedupe
pub mod Duplicates
pub mod Consumer
pub mod Retrying
pub mod Dial
pub mod Dialled
pub mod Topology
pub mod Declares
pub mod Declared
pub mod Connection
pub mod Held
pub mod Confirmed
pub mod Closing
pub mod Sessions
pub mod Streams
pub mod Breaks
