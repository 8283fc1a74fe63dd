-- ===== src/Controller.antt =====
-- internal/controller/poddiagnosis_controller.go: the reconciler. Pods has the part of a pod that it
-- reads, Evidence what it gathers, Reconcile the two reconcile functions over the cluster, Setup the
-- defaults.
pub mod Pods
pub mod Evidence
pub mod Reconcile
pub mod Setup
