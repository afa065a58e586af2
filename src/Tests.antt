-- ===== src/Tests.antt =====
-- Runs of the models at concrete inputs, and the theorems at inputs where their hypotheses hold.
mod Auth
mod Miot
mod Packet
mod Bridge
mod Commands
mod Health
mod Resilience
mod Qr
mod Spec
mod Mqtt
mod Otel
mod Http
mod Raster
mod Registry
mod UiAuth
mod Notifications
mod Devices
