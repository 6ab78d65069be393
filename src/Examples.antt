-- ===== src/Examples.antt =====
-- Concrete runs: the theorems at inputs where their hypotheses hold.
mod Runs
mod Wire
mod Split
mod Serve
mod Scan
mod Tiles
mod Whole
mod Links
mod Lists
mod Packed
mod Exchange
mod Headers
