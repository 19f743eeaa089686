-- ===== src/Domain/G722.antt =====
-- The G.722 codec, firmware/components/pv_domain/include/domain/g722.hpp and src/g722.cpp: the
-- reference tables and helpers, the band predictor, the encoder and the decoder.
pub mod Tables
pub mod Band
pub mod Codec
pub mod Ranges
pub mod Tracking
mod Tests
