-- ===== src/Tests.antt =====
-- The theorems at concrete inputs, and runs of the definitions.
mod Code
mod Frames
mod Host
mod Instances
mod Numbers
mod Stacks
mod Values
mod Effects
