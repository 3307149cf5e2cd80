-- ===== src/Boot.antt =====
-- magiskboot (native/src/boot).
pub mod Patch
pub mod Cpio
pub mod Format
pub mod Payload
