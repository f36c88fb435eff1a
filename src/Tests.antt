-- ===== src/Tests.antt =====
-- Concrete runs of the modelled code, and the theorems at concrete inputs.
mod Pages
mod Serial
mod Clock
mod Texts
mod Files
mod Paths
mod Threads
mod Calls
mod Objects
mod Archive
mod Boot
mod Interrupt
mod Signals
mod Loading
mod Console
