-- ===== src/Log/Laws.antt =====
-- Which messages reach the log file.
use libstutter.Common.{◌≡◌, Bool, false, arith, leb, ◌&&◌}
use libstutter.Common.Bytes.{Bytes}
use libstutter.Log.{Log, Level, rank, new_log, setup, open_file, close, enabled, get, reaches}

-- After setup() a message reaches the log exactly if the file could be opened, which setup() reports,
-- and its level is at least the one that was set; before the first setup() none does.
pub reaches-setup :
    (can_open : Bytes → Bool) (log : Log) (filename : Bytes) (set : Level) (level : Level)
    → (reaches (get (setup can_open log filename set).0 level)
        ≡ ((setup can_open log filename set).1 && leb (rank set) (rank level)))
      × (reaches (get new_log level) ≡ false)
unfolding reaches get setup open_file close enabled new_log
reaches-setup can_open log filename set level = ground arith
