-- ===== src/FileUdp.antt =====
-- protocol/file_udp.h and protocol/file_udp.cpp: the reliable file transfer over UDP.
pub mod Ack
pub mod Datagram
pub mod Window
pub mod Udp
pub mod Receiver
pub mod Reading
pub mod Sender
pub mod Link
pub mod Ports
