-- ===== src/Tests.antt =====
-- Concrete libraries, states and messages, and the runs of the theorems on them.
pub mod World
mod WireRuns
mod ServerRuns
mod CrossingRuns
mod ConfigRuns
mod PoolRuns
mod RedisRuns
mod ClientRuns
mod WindowRuns
mod DialogRuns
mod LoggingRuns
mod JourneyRuns
mod ThreadRuns
mod TerminalRuns
mod SessionRuns
mod StartupRuns
mod MysqlRuns
