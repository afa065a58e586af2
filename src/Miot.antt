-- ===== src/Miot.antt =====
-- packages/miot-device: the errors, the UDP exchange with a device, the packets, and the client
-- that keeps a device's stamp.
pub mod Error
pub mod Transport
pub mod Packet
pub mod Device
pub mod Client
