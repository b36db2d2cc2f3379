-- ===== src/Examples.antt =====
-- Concrete runs of the program: one account with one session token, on the registry of Ecs/Slots.antt,
-- the tables of Database/Tables.antt and the arithmetic of Float/Soft.antt.
pub mod Fixture
pub mod Server
pub mod Wire
