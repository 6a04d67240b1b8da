-- ===== src/ResourceModel.antt =====
-- app/resource_model.py: what a task asks for, what a worker offers, and when the one fits the
-- other.
pub mod Types
pub mod Request
pub mod Profile
pub mod Fits
