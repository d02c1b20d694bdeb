-- ===== src/Raft.antt =====
-- The Raft node of src/node.h and the files src/node*.cpp. The types, then one module for each part.
pub mod Types
pub mod Conf
pub mod Log
pub mod Peers
pub mod Persist
pub mod Role
pub mod Vote
pub mod Transport
pub mod Server
pub mod Cluster
pub mod Apply
pub mod Replicate
pub mod Change
pub mod Append
pub mod Commit
pub mod Snapshot
pub mod Timer
pub mod Frame
pub mod Tests
