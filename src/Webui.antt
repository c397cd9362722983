-- ===== src/Webui.antt =====
-- internal/webui/webui.go: the config UI on 127.0.0.1.
pub mod Host
pub mod Serve
pub mod Start
