-- ===== src/Common.antt =====
-- `src/dfsha/common/`: shared values, errors, channels and admission.
pub mod Domain
pub mod Local
pub mod Failover
