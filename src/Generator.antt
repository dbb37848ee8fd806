-- ===== src/Generator.antt =====
-- pkg/generator/generator.go: the generators of requests.
pub mod Request
pub mod State
pub mod Loop
pub mod RampUp
pub mod CloudEvent
pub mod Tests
