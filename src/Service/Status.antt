-- ===== src/Service/Status.antt =====
-- src/service.rs: how a start and a reload end, and why an operation is refused.
pub data StartStatus : Type 0 where
  success failed stopping : StartStatus

pub data ReloadStatus : Type 0 where
  success failed stopping : ReloadStatus

pub data ServiceOperationError : Type 0 where
  starting reloading stopping running stopped failed : ServiceOperationError
