-- ===== src/Tests.antt =====
-- The theorems on client, server and transport at a small device.
mod Device
mod Client
mod Remote
mod Server
mod Runs
mod Session
mod Threads
mod Udp
