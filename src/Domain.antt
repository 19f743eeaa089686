-- ===== src/Domain.antt =====
-- The pure layer of the firmware, firmware/components/pv_domain.
pub mod SessionFsm
pub mod LedFsm
pub mod EnergyGate
pub mod G711
pub mod G722
pub mod FormUrlencoded
pub mod WakeWindow
