-- ===== src/Examples.antt =====
-- Concrete inputs: that the theorems' conditions can hold, on runs of the code.
mod Values
mod Execution
mod Breaker
mod Counting
mod Interleavings
mod Requests
mod Settings
mod Reporting
mod Demonstration
mod Callers
