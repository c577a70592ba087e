-- ===== src/Llm.antt =====
-- src/llm_inference.cpp: what is done to a payload before the model sees it, and what is checked of the
-- model's answer. The model itself is a parameter.
pub mod Sanitize
pub mod Markers
pub mod Context
pub mod Suppress
pub mod Tagged
pub mod Verdict
pub mod Grounded
pub mod Braces
