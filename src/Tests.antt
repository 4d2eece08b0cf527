-- ===== src/Tests.antt =====
-- Runs at fixed inputs, and the witnesses of the theorems.
mod Lua
mod Export
mod Update
mod Upload
mod Updater
mod Archive
mod Feed
mod Watch
mod Life
mod Activity
