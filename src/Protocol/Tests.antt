-- ===== src/Protocol/Tests.antt =====
-- A round trip at one text.
