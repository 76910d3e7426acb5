-- ===== src/Examples.antt =====
-- Tests of the model on concrete inputs, and the theorems at inputs that meet their hypotheses: a
-- child that reads four bytes from a pipe, gets a signal, and exits.
mod Inputs
mod Printing
mod Calls
mod Tracing
mod Running
