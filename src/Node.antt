-- ===== src/Node.antt =====
-- node_integration: the cache of jobs and the handlers of the node's messages.
pub mod JobCache
pub mod Consumer
pub mod Template
pub mod Work
pub mod Rpc
pub mod Nng
pub mod BlockBuilder
