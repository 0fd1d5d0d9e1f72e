-- ===== src/Examples.antt =====
-- The theorems at concrete inputs, and runs of the definitions.
mod Audio
mod Policy
mod Control
mod Events
mod Stream
mod Process
mod Texts
mod Choices
mod Loop
mod Errors
