-- ===== src/Tests.antt =====
-- Runs of the model on concrete rows, and the theorems at them. No code of the program is modelled here.
mod Delivering
mod Intake
mod Enrichment
mod Addresses
mod Arrivals
mod Queueing
mod Shadowing
mod Scores
mod Variants
mod Links
mod Prices
mod States
