-- ===== src/Tests.antt =====
-- Runs of the models on concrete inputs, and each theorem at an input that meets its hypotheses.
mod Paths
mod Mounts
mod Devices
mod Files
mod Processes
mod Filters
mod Firmware
mod Sockets
mod Memory
mod Programs
mod Stacks
