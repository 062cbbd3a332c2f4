-- ===== src/Policy.antt =====
-- plugins/policy-engine/src: the policy hierarchy, its validation, and the enforcement points.
pub mod Merge
pub mod Content
pub mod Resolver
pub mod Validator
pub mod Evaluate
pub mod ModelRouter
pub mod Classify
