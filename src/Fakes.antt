-- ===== src/Fakes.antt =====
pub mod Table
pub mod Method
pub mod Uses
pub mod History
pub mod Copies
pub mod Refined
pub mod Lawful
pub mod ClusterHealthChecker
pub mod DbHelper
pub mod OsHelper
pub mod Seeder
pub mod ServiceStatus
pub mod StartManager
pub mod Starter
pub mod Upgrader
pub mod UserSeeder
