-- ===== src/Lib.antt =====
-- A model of deptool, which deploys configuration from Git to many hosts, and the proofs about it.
--
-- The driver runs on an operator's machine. It validates a configuration tree and plans the changes
-- of each host against the commit that its tracking reference points to (src/plan.rs,
-- src/store.rs). Then it connects to the agents, locks the hosts, pushes packfiles and asks for an
-- apply (src/deploy.rs), and it keeps its tracking references true to the hosts (src/sync.rs). An
-- agent runs on each host (src/agent.rs): it checks out apps (src/checkout.rs), activates them, and
-- rolls back if that fails.
--
-- Base: shared helpers. BTreeMap, Types, Error, Protocol: maps, ids and paths as texts, error types
-- (src/error.rs) and messages (src/protocol.rs). Io: code that changes a state and may fail, and
-- Io.Keeps what such code leaves alone.
-- Store: src/store.rs over libgit2, which is the interface Store.Repository. Store.Refs has the
-- references, Store.Trees the trees and manifests, Store.Desired the links that a host should have,
-- Store.Validate `validate`, Store.Frontier `frontier`, Store.Build `build_tree`.
-- The planner, src/plan.rs: Plan.Changes has the differences and rollback safety, Plan.Diff
-- `diff_apps`, `diff_symlinks`, `diff_enabled` and `diff_host`, Plan.Filter the host filter,
-- `make_plan` is in Plan.Make, and Plan.Subject has the message of the commit and `finalize`.
-- FileSystem, Checkout: src/checkout.rs over `std::fs`, which is the interface FileSystem.
-- Checkout.Apps has the version directories and their links, Checkout.Gc the removal of old ones,
-- Checkout.Links the links of a managed directory, Checkout.ConfigLinks those of the manifests.
-- Agent: src/agent.rs, with the trait `Activate` as an argument. Systemd: the implementation of
-- that trait in src/main.rs, over the programs and the clock of the host, which are the interface
-- Systemd.Host.Systemd. The loop that waits for units is in Systemd.Poll.
-- Deploy: src/deploy.rs, with the traits `Connection` and `HostConnector` as the interface
-- Deploy.Connection; Deploy.Explain groups the failures by `explain` of src/error.rs.
-- Sync: src/sync.rs. Reapply: src/reapply.rs. Status: src/status.rs. Ping: src/ping.rs.
-- Tests: concrete repositories, file systems and hosts, and the theorems at concrete inputs.
--
-- A function that returns `Result<T, E>` returns Result E T; where the code can panic, the error is
-- Fault E. Code that changes a store, a file system or a session is an Io action, which keeps the
-- state that a failed call leaves. A loop is a recursion on the list that it runs over. The walk of
-- a tree and that of a directory go down one level for each unit of fuel, and get one more than the
-- depth that the interface gives for the tree or directory. A walk up from a directory has a unit
-- for each component of its path and one more. The loop that waits for units has a unit for each
-- round; the rounds are an argument, and running out of them is a panic. The threads of a deploy
-- work on one host each and share only maps in which each has its own entry, so the hosts are taken
-- in order. Paths are texts and compared as texts; durations are numbers of nanoseconds. A
-- reference of the store points to a commit, and a pack is the text of its base64: the panics on a
-- reference to something else and on text that is not base64 are left out.
--
-- Not modelled: the SSH session and the installation of agents (src/setup.rs), the terminal
-- (src/display.rs), the command line (src/main.rs), the printing of a status (src/status.rs) and of
-- ping statistics, the pace of the pings (src/ping.rs), and the log file's format (src/log.rs). They
-- are mostly calls of the operating system and output.
pub mod Base
pub mod BTreeMap
pub mod Types
pub mod Error
pub mod Protocol
pub mod Store
pub mod Plan
pub mod Status
pub mod Sync
pub mod Deploy
pub mod Agent
pub mod Io
pub mod FileSystem
pub mod Checkout
pub mod Systemd
pub mod Reapply
pub mod Ping
pub mod Tests
