-- ===== src/MultiNode.antt =====
-- chain/cmd/mirrorvaultd/cmd/testnet_multi_node.go: the `multi-node` command, which writes the
-- files of a testnet of several validators on one machine.
pub mod Services
pub mod Args
pub mod Config
pub mod Sdk
pub mod Random
pub mod Files
pub mod Genesis
pub mod Collect
pub mod Init
