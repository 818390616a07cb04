-- ===== src/Protocol.antt =====
-- Source/yarc_protocol_data.h and .cpp: the tree of RESP values, its parser and its printer.
pub mod Data
pub mod Number
pub mod Reader
pub mod Fields
pub mod Parser
pub mod Printer
pub mod Encoding
pub mod RoundTrip
pub mod Termination
pub mod Typing
pub mod Lossy
pub mod HashSlot
pub mod Command
pub mod Elements
pub mod Buffers
