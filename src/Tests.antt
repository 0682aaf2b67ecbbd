-- ===== src/Tests.antt =====
-- Concrete resolvers, file systems and callbacks, with runs of the definitions on them.
pub mod Data
mod ResolverRuns
mod AdapterRuns
mod MemfsRuns
mod SessionRuns
