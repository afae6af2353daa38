-- ===== src/Vm.antt =====
-- vm.rs: the virtual machine that computes a circuit's variables and states its constraints.
pub mod Types
pub mod Scalar
pub mod Machine
pub mod Circuit
