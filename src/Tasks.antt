-- ===== src/Tasks.antt =====
-- The tasks that come with the program, under tasks/.
pub mod Payload
pub mod Chain
pub mod Api
pub mod Det
