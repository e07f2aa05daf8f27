-- ===== src/Examples.antt =====
-- The theorems at concrete inputs: one run, from its admission to its pull request.
mod Data
mod Control
mod Resume
mod Tools
mod Worker
mod Sandbox
mod Guard
mod Github
mod Agent
mod Api
