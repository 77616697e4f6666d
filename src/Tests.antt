-- ===== src/Tests.antt =====
-- Runs of the models on small inputs, and the theorems at concrete inputs.
mod Evaluator
mod Fifo
mod Memories
mod Streams
mod Accelerator
mod Propagation
mod Host
mod Uart
mod Upload
mod Search
mod Driver
mod Line
mod Top
mod TopSession
mod Jtag
mod JtagTop
