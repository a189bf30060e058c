-- ===== src/Tun.antt =====
-- internal/tun/app_routing.go: the name of the server in a TLS ClientHello, and the route of an
-- application's connection.
pub mod Sni
pub mod Route
pub mod Apps
pub mod Packet
pub mod Table
pub mod Reflect
pub mod Profiles
pub mod Payload
pub mod Serve
pub mod Connect
