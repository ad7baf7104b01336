-- ===== src/Tests.antt =====
-- Runs at concrete inputs. The parts of the program that are outside are concrete here: doubles are
-- natural numbers, and libmatheval adds variables of one letter.
pub mod Setup
pub mod Passes
pub mod Parts
pub mod JsonData
pub mod Sensors
pub mod Threads
pub mod Election
pub mod ZkParts
pub mod ZkClient
pub mod Queues
pub mod Settings
pub mod Ending
