-- ===== src/LiveView.antt =====
-- The board of who is working now (liveview/service.go, liveview/handler.go), which joins the shifts
-- of roster, the records of attendance and the employees of identity.
pub mod Service
pub mod Index
pub mod Join
pub mod Board
