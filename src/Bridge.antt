-- ===== src/Bridge.antt =====
-- apis/miot-bridge-api: the poller of subscribed properties and the commands of devices.
pub mod Poller
pub mod Commands
pub mod Spec
pub mod Mqtt
pub mod Registry
pub mod Notifications
pub mod Devices
