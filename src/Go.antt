-- ===== src/Go.antt =====
-- The Go runtime as the program uses it: error values, child processes, and actions that may
-- return, fail with an error, panic or block for ever.
pub mod Error
pub mod World
pub mod Action
pub mod Rules
pub mod Relations
pub mod Logic
pub mod Adds
pub mod Ends
pub mod Total
pub mod Quiet
pub mod Safe
pub mod Exact
pub mod Plain
pub mod Channel
