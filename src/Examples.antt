-- ===== src/Examples.antt =====
-- The theorems at concrete inputs.
mod Protocol
mod Client
mod Cluster
mod Queue
mod Pool
mod Lists
mod Cancel
mod Threads
mod Setup
mod Choice
mod Ids
mod Messages
mod Accessors
mod Sockets
mod Streams
