-- ===== src/Paths/Open/Resolved.antt =====
-- A resolved path, opened.
use rust_panel.Paths.Open.{or_portable, missing}
use rust_panel.Paths.Resolve.{or_portable, missing}
