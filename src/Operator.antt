-- ===== src/Operator.antt =====
-- handler/operator_ws.rs: an operator's messages, and their delivery to the provider.
pub mod Inbound
pub mod Outbound
pub mod Acks
pub mod Ticks
