-- ===== src/Tasks.antt =====
-- Pollable tasks of the MCP server: sdk/mcp/tasks.go and sdk/mcp/tasks_input.go, with the store in
-- memory.
pub mod Types
pub mod Store
pub mod Input
pub mod Updates
pub mod Work
pub mod Events
pub mod Lists
pub mod Changes
pub mod Operations
pub mod Careful
pub mod Requests
pub mod Steps
pub mod Runs
pub mod Ages
pub mod Owners
pub mod Failures
pub mod Answers
pub mod Confirming
pub mod Turns
pub mod Asked
pub mod Calm
pub mod Confirmed
pub mod Approval
pub mod Called
mod Examples
