-- ===== src/Tests.antt =====
-- Runs of the development on concrete inputs.
mod Redis
mod Seeding
mod Lists
mod Passwords
mod Sample
mod Services
mod Sessions
mod Starting
mod Tables
mod Witness
