-- ===== src/Tests.antt =====
-- Runs of the modelled code on concrete inputs, and each theorem at one of them.
mod Samples
mod Texts
mod Vaults
mod Masking
mod Policy
mod Loading
mod Detecting
mod Scoring
mod Storing
mod Limiting
mod Checking
mod Running
mod Sending
mod Chatting
