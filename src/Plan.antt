-- ===== src/Plan.antt =====
-- How src/lib/command-execution-plan.ts decides what to run for a command. Plan.Split cuts it at its
-- pipes and separators, Plan.Route makes the plan.
pub mod Split
pub mod Cmd
pub mod Route
pub mod Pieces
pub mod Whole
pub mod Parts
pub mod Alone
pub mod Steps
pub mod Wrapper
pub mod Depth
mod Tests
