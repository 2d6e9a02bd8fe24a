-- ===== src/Desktop.antt =====
-- apps/desktop/src-tauri/src: the desktop application's side of the connection.
pub mod Router
pub mod Restart
pub mod Connect
