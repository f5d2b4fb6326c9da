-- ===== src/Sync/Locked.antt =====
-- Two processors do not handle the same task at once.
use genioai_wxmini_server.Chain.World.{World}
