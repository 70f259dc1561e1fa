-- ===== src/Tests.antt =====
-- Runs of the definitions on concrete inputs, and the theorems applied at such inputs.
mod Index
mod Data
mod Tables
mod Forwarder
mod Wire
mod Stores
mod Mac
