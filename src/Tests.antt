-- ===== src/Tests.antt =====
-- The theorems at concrete inputs.
mod Node
mod Fixtures
mod Controller
mod Workloads
mod Server
mod Converge
mod Watch
mod Wire
