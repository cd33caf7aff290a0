-- ===== src/Tests.antt =====
-- Tests, and the theorems at inputs that meet their hypotheses.
mod Sample
mod Sessions
mod Relays
mod Pages
mod Listen
mod Files
mod Forms
mod Uploads
mod World
mod Game
mod Feeds
mod Players
mod Portal
mod Logins
