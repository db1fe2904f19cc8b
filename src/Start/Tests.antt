-- ===== src/Start/Tests.antt =====
-- The modes of mprofile/init.c, and the theorems at them.
