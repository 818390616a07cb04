-- ===== src/ClusterClient.antt =====
-- Source/yarc_cluster_client.h and .cpp: the nodes of a cluster, their slots, and the requests that
-- are routed by them.
pub mod Slots
pub mod Nodes
pub mod Requests
pub mod Stable
pub mod Queue
