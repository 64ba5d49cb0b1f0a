-- ===== src/Tests.antt =====
-- Sample clips, and the theorems of the other modules applied to them.
mod Clips
mod Names
mod Archive
mod Deletes
mod Home
mod Tracks
mod Reads
mod Drains
mod Renders
mod Imports
mod Ranges
