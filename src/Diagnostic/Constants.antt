-- ===== src/Diagnostic/Constants.antt =====
-- The regular expressions of the diagnostics, by their source.
use reprocut.Prelude.Texts.{codes}
use reprocut.Diagnostic.Texts.{Text}

abbrev pub pytest : Text
pytest = codes "^(?:failed|error)[ \\t]+[^ \\t\\r\\n]+(?:::[^ \\t\\r\\n]+)+"

abbrev pub compiler : Text
compiler = codes "(?:error\\[[a-z][0-9]{2,}\\]|(?:fatal )?error[ \\t]+[a-z]{1,5}[0-9]{2,})"

abbrev pub root_failure : Text
root_failure = codes "(?:[a-z_][a-z0-9_.]*(?:error|exception)|panicked at|^panic:|^fatal:)"

abbrev pub assertion_words : Text
assertion_words = codes "(?:assert(?:ion)?|expected|actual|left.*right)"

abbrev pub message_words : Text
message_words = codes "(?:error|failed|failure|panic|exception|fatal)"

abbrev pub summary : Text
summary =
    codes
      "^[^A-Za-z0-9_]*(?:[0-9]+[ \\t]+(?:failed|passed|skipped|error)s?)(?:[^A-Za-z0-9_]|$).*(?:(?:ms|s|sec|seconds?))?[^A-Za-z0-9_]*$"

abbrev pub location : Text
location =
    codes
      "^(?:at[ \\t]+[^ \\t\\r\\n]+|file[ \\t]+\\\"[^\\\"]+\\\",[ \\t]+line[ \\t]+<location>|[ \\t]*-->[ \\t]+[^ \\t\\r\\n]+)(?::?[0-9<>]+)*[ \\t]*$"

abbrev pub lifecycle : Text
lifecycle =
    codes
      "^(?:process|command|child)[ \\t]+(?:exited|failed)[ \\t]+with[ \\t]+(?:code|status)[ \\t]+[-0-9]+[^A-Za-z0-9_]*$"

abbrev pub uuid : Text
uuid =
    codes "[0-9A-Fa-f]{8}-[0-9A-Fa-f]{4}-[1-5][0-9A-Fa-f]{3}-[89ABab][0-9A-Fa-f]{3}-[0-9A-Fa-f]{12}"

abbrev pub timestamp : Text
timestamp =
    codes
      "[0-9]{4}-[0-9]{2}-[0-9]{2}[T ][0-9]{2}:[0-9]{2}:[0-9]{2}(?:\\.[0-9]+)?(?:Z|[+-][0-9]{2}:[0-9]{2})?"

abbrev pub uuid_field : Text
uuid_field =
    codes "(?i)(?:request|correlation|trace|span|invocation|run)(?:[_ -]?id)?[ \\t]*[:=][ \\t]*$"

abbrev pub timestamp_field : Text
timestamp_field = codes "(?i)(?:timestamp|log[_ -]?time|logged[_ -]?at)[ \\t]*[:=][ \\t]*$"

abbrev pub log_level : Text
log_level = codes "(?i)^[ \\t\\]]*(?:trace|debug|info|warn|warning|error|fatal)(?:[ \\t:]|$)"

abbrev pub unix_temp : Text
unix_temp = codes "/(?:tmp|var/tmp)(?:/[^ \\t\\r\\n:]+)*"

abbrev pub windows_temp : Text
windows_temp =
    codes
      "[A-Za-z]:\\\\(?:[Tt][Mm][Pp]|[Tt][Ee][Mm][Pp]|[Uu]sers\\\\[^\\\\ \\t\\r\\n:]+\\\\[Aa]pp[Dd]ata\\\\[Ll]ocal\\\\[Tt]emp)(?:\\\\[^ \\t\\r\\n:]+)*"

abbrev pub address : Text
address = codes "(?:address|addr|pointer|ptr|Address|Pointer)[ \\t]*[:=]?[ \\t]*0x[0-9A-Fa-f]{7,}"

abbrev pub process_id : Text
process_id =
    codes
      "(pid|PID|process[ \\t]+[Ii][Dd]|thread[ \\t]+[Ii][Dd]|thread|Thread)[ \\t]*[:=#]?[ \\t]*[0-9]+"

abbrev pub loopback_port : Text
loopback_port = codes "(localhost|LOCALHOST|127\\.0\\.0\\.1|\\[::1\\]):[0-9]{1,5}"

abbrev pub named_port : Text
named_port = codes "(?:port|Port|PORT)[ \\t]*[:=]?[ \\t]*[0-9]{1,5}"

abbrev pub telemetry_duration : Text
telemetry_duration =
    codes
      "(?i)(elapsed|took|duration|finished[ \\t]+in)([ \\t]*[:=]?[ \\t]*)[0-9]+(?:\\.[0-9]+)?[ \\t]*(?:seconds|second|minutes|minute|secs|sec|mins|min|ms|ns|us|s)"

abbrev pub path_location : Text
path_location = codes "(?m)(?P<token>[^ \\t\\r\\n:]+):[0-9]+(?::[0-9]+)?"

abbrev pub named_location : Text
named_location = codes "([Ll]ine|[Cc]olumn)[ \\t]+[0-9]+"

abbrev pub horizontal_space : Text
horizontal_space = codes "[\\t ]+"
