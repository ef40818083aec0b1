-- ===== src/Driver.antt =====
-- The SQL driver, driver/driver.go.
pub mod Errors
pub mod Conn
pub mod Rows
pub mod Verdicts
pub mod Exec
pub mod Open
pub mod Opened
