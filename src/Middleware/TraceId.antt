-- ===== src/Middleware/TraceId.antt =====
-- internal/middleware/trace_id.go. A context is what it says of the key `trace_id`; a context that is
-- nil is `none`, and background is one that says nothing.
use nexo_im.Base.{Text, is_empty, ◌==◌, Option, none, some, [], ◌∷◌, if◌then◌else◌}
use nexo_im.Strings.{trim_space}

-- No value, a text, or a value of another type.
pub data Value : Type 0 where
  absent other : Value
  text : Text → Value

abbrev pub Context : Type 0
Context = Option Value

unfoldable pub get_trace_id : Context → Text
get_trace_id none = []
get_trace_id (some absent) = []
get_trace_id (some other) = []
get_trace_id (some (text t)) = trim_space t

unfoldable pub with_trace_id : Context → Text → Context
with_trace_id ctx given =
    let trace_id = trim_space given in if is_empty trace_id then ctx else some (text trace_id)

-- strings.ReplaceAll(s, "-", "")
unfoldable pub without_dashes : Text → Text
without_dashes [] = []
without_dashes (c ∷ s) = let rest = without_dashes s in if c == b'-' then rest else c ∷ rest

abbrev or_else : Text → Text → Text
or_else t rest = if is_empty t then rest else t

-- The headers Trace-Id and X-Trace-Id, the parameter operation_id, the context, or a new uuid.
unfoldable pub resolve_trace_id : Context → Text → Text → Text → Text → Text
resolve_trace_id ctx trace_header x_trace_header operation_id new_uuid =
    or_else (trim_space trace_header) (
      or_else (trim_space x_trace_header)
        (or_else (trim_space operation_id) (or_else (get_trace_id ctx) (without_dashes new_uuid))))
