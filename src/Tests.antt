-- ===== src/Tests.antt =====
-- Runs of the analysis on small programs, and the theorems at concrete inputs.
mod Programs
mod Runs
mod Utilities
mod Lists
mod Printing
mod Driving
mod Symbols
mod Analysis
mod Accepting
mod Capturing
mod Subprograms
mod Owned
