-- ===== src/Sleepinfo/Restored.antt =====
-- A sleep, the secret that it leaves, and the wake up that reads it.
