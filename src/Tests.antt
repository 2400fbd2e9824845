-- ===== src/Tests.antt =====
-- Runs of the definitions at concrete inputs.
mod Repository
mod Service
mod Worker
mod Broker
mod Config
mod Llm
mod Connection
mod Event
mod Rescued
mod Api
mod Interleaved
mod Consumers
mod Requests
mod Boot
mod Reconciler
mod Transport
mod System
