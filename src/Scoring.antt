-- ===== src/Scoring.antt =====
-- internal/scoring: point values. The engines are in `Engine`, the registry of scoring modes is
-- osctf.Registry at `Engine`, and `Curve` has the laws of the dynamic curve.
pub mod Floats
pub mod Engine
pub mod Curve
mod Tests
