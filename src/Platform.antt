-- ===== src/Platform.antt =====
-- src/research_os/platform: what stands between the program and the outside.
pub mod UrlNormalize
