-- ===== src/Examples.antt =====
-- The theorems at concrete inputs, and runs of the model on the inputs of the source's own tests.
mod Runs
mod Selecting
mod Histories
mod Recording
mod Headers
mod Serving
mod Starting
mod PoolTests
mod HeaderTests
