-- ===== src/Egress/Tests.antt =====
-- A flow on one of two ports.
use v2pro_dock.Base.{nat_equal, string_equal}
