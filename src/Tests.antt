-- ===== src/Tests.antt =====
-- Runs of the models on concrete inputs, and the theorems on them.
mod Naming
mod Ids
mod Wire
mod Store
mod Routing
mod Tokens
mod Claims
mod Difficulty
mod Node
