-- ===== src/Logs/Rows.antt =====
-- The lines of the log console: levels, filter, colours and the download
-- (web/src/pages/LogsView.tsx).
pub mod Laws
use ophanim.Base.{
  Bool, true, false, ◌&&◌, ◌||◌, List, [], ◌∷◌, ◌++◌, map, Text, codes, ◌===◌, text_eq_instance,
  if◌then◌else◌, or_text, includes, to_lower, filter, join,
}
use ophanim.Types.{LogEntry}
use ophanim.Dashboard.Containers.{matches_text}

pub data LevelFilter : Type 0 where
  all_levels errors_only warnings_only : LevelFilter

-- `isError` and `isWarn` of a row.
unfoldable pub is_error : LogEntry → Bool
is_error l =
    l.level === codes "ERROR"
    || includes l.message (codes "ERR")
    || includes l.message (codes "error")

unfoldable pub is_warn : LogEntry → Bool
is_warn l =
    l.level === codes "WARN"
    || includes l.message (codes "WRN")
    || includes l.message (codes "warning")

-- The tests of the filter, which the source writes out a second time.
unfoldable pub passes_errors : LogEntry → Bool
passes_errors l =
    l.level === codes "ERROR"
    || includes l.message (codes "ERR")
    || includes l.message (codes "error")

unfoldable pub passes_warnings : LogEntry → Bool
passes_warnings l =
    l.level === codes "WARN"
    || includes l.message (codes "WRN")
    || includes l.message (codes "warning")

-- The predicate of `filteredLogs`.
unfoldable pub is_shown : Text → LevelFilter → LogEntry → Bool
unfolding matches_text passes_errors passes_warnings
is_shown search errors_only l = matches_text search l.message && passes_errors l
is_shown search warnings_only l = matches_text search l.message && passes_warnings l
is_shown search all_levels l = matches_text search l.message

unfoldable pub filtered_logs : Text → LevelFilter → List LogEntry → List LogEntry
unfolding is_shown
filtered_logs search k ls = filter (is_shown search k) ls

-- The colours of a row.
pub data LineTint : Type 0 where
  crimson terracotta emerald ink : LineTint

-- The colour of the tag.
unfoldable pub line_tint : LogEntry → LineTint
unfolding is_error is_warn
line_tint l = if is_error l then crimson else if is_warn l then terracotta else emerald

-- The colour of the message.
unfoldable pub message_tint : LogEntry → LineTint
unfolding is_error is_warn
message_tint l = if is_error l then crimson else if is_warn l then terracotta else ink

-- `log.level || 'INFO'`
unfoldable pub level_tag : LogEntry → Text
level_tag l = or_text l.level (codes "INFO")

module _ (to_iso : Text → Text) where
  -- One line of the download; `to_iso` writes a time as `toISOString` does.
  unfoldable pub download_line : LogEntry → Text
  unfolding level_tag
  download_line l =
      codes "["
      ++ (to_iso l.timestamp ++ (codes "] [" ++ (level_tag l ++ (codes "] " ++ l.message))))

  -- `text` of `downloadLogs`
  unfoldable pub download_text : List LogEntry → Text
  unfolding download_line
  download_text ls = join (10 ∷ []) (map download_line ls)

-- `a.download`; `today` is the date as `toISOString` writes it, cut after the day.
unfoldable pub download_name : Text → Text → Text
download_name source today =
    or_text source (codes "container") ++ (codes "_logs_" ++ (today ++ codes ".log"))
