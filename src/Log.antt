-- ===== src/Log.antt =====
-- stutter/log.cpp: the process-wide log. Whether a file can be opened is an argument.
pub mod Laws
use libstutter.Common.{ℕ, Bool, true, false, leb, if◌then◌else◌}
use libstutter.Common.Bytes.{Bytes, codes}

pub data Level : Type 0 where
  trace debug info notice warn error crit alert emerg : Level

-- The value of an enumerator.
abbrev pub rank : Level → ℕ
rank trace = 0
rank debug = 1
rank info = 2
rank notice = 3
rank warn = 4
rank error = 5
rank crit = 6
rank alert = 7
rank emerg = 8

-- A Log, with whether its stream is open.
pub record Log : Type 0 where
  pub filename : Bytes
  pub level : Level
  pub is_open : Bool

-- m_log as the program starts.
unfoldable pub new_log : Log
new_log = record { filename = codes "/dev/stderr"; level = info; is_open = false }

unfoldable pub open_file : (Bytes → Bool) → Log → Log × Bool
open_file can_open log = (record log { is_open = can_open log.filename }, can_open log.filename)

unfoldable pub close : Log → Log
close log = record log { is_open = false }

unfoldable pub setup : (Bytes → Bool) → Log → Bytes → Level → Log × Bool
unfolding open_file close
setup can_open log filename level =
    open_file can_open (record (close log) { filename = filename; level = level })

unfoldable pub enabled : Log → Level → Bool
enabled log level = leb (rank log.level) (rank level)

-- The stream that get() returns: that of the log, or that of m_null, which is never opened.
pub data Stream : Type 0 where
  to_log : Log → Stream
  to_null : Stream

unfoldable pub get : Log → Level → Stream
get log level = if enabled log level then to_log log else to_null

-- Whether a text put into a stream reaches a file.
unfoldable pub reaches : Stream → Bool
reaches (to_log log) = log.is_open
reaches to_null = false
