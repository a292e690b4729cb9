-- ===== src/Tests.antt =====
-- The theorems at concrete inputs, and runs of the definitions.
mod Queues
mod Storages
mod Products
mod Stores
mod Publishers
mod Capabilities
mod Apis
mod Runs
mod Workers
mod Printers
