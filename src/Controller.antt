-- ===== src/Controller.antt =====
-- The reconciliation of internal/controller/controller.go.
pub mod Reconcile
pub mod Available
mod Examples
