-- ===== src/Mac.antt =====
-- crates/platform-mac: the platform on macOS. `Opener` finds the app that opened a URL, `Inventory` the
-- browsers and their profiles, `Launcher` starts a browser.
pub mod Opener
pub mod Inventory
pub mod Launcher
