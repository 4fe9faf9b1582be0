-- ===== src/Fs/Stale.antt =====
-- fs/fs.c: a file that is cut to nothing keeps its old bytes, and a later write can bring them back.
use sugimotos.Fs.{Fs}
