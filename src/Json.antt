-- ===== src/Json.antt =====
-- src/json.c: the bounded JSON writer and the serializers.
pub mod Escape
pub mod Buffer
pub mod Call
pub mod Bounds
pub mod Serialize
pub mod Point
pub mod Magnitude
