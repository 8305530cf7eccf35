-- ===== src/Store.antt =====
-- The data that the services keep (modules/tokens/entities, modules/contracts/entities), and the
-- way a service acts on it: the rows, the shared state, actions, and rules for their invariants.
pub mod Entities
pub mod World
pub mod Exec
pub mod Env
pub mod Tables
