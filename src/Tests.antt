-- ===== src/Tests.antt =====
-- Concrete inputs at which the theorems with hypotheses apply.
mod Data
mod Domains
mod Sends
mod Broker
mod Streams
mod Stores
mod Boxes
mod Links
mod Starts
