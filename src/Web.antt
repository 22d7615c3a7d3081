-- ===== src/Web.antt =====
-- debugger/websockets/emu_server.cpp: what the callback of the web server keeps and does.
pub mod Control
pub mod Leds
pub mod Serial
pub mod Upload
pub mod Writeable
