-- ===== src/Tests.antt =====
-- Runs of the models on small inputs, and the theorems at inputs that meet their hypotheses.
mod AudioBuffer
mod VideoBuffer
mod Clock
mod Response
mod Request
mod Server
mod Texts
mod AudioService
mod VideoService
mod Pairing
mod Control
mod Microphone
