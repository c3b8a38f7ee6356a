-- ===== src/Tests.antt =====
-- Applications of the theorems to connections that are written out.
mod Pipelines
mod Tables
mod Processes
mod Mocked
mod Samples
mod Reading
mod Sending
mod Sessions
mod Statements
mod Counting
mod Served
