-- ===== src/Examples.antt =====
-- Concrete runs of the theorems.
mod Relaying
mod Merging
mod Storing
mod Configuring
mod Editing
mod Syncing
mod Transferring
mod Joining
