-- ===== src/Waitq/Sleep.antt =====
-- kernel/process/waitq.c: what `waitq_sleep` has done when it calls `yield`.
