-- ===== src/Base/Url.antt =====
-- normalizeBase, which internal/channel/detect.go and internal/upstream/openai.go both have.
use Prim.Native.String.{String}
use mathlib.Core.Bool.{◌||◌}
use text.Mathlib.Text.{starts_with}
use clean_api.Base.Tests.{if◌then◌else◌}
use clean_api.Base.Text.{◌+++◌, has_suffix, without_suffix}

abbrev pub with_scheme : String → String
with_scheme s = if starts_with s "http://" || starts_with s "https://" then s else "https://" +++ s

abbrev pub without_slash : String → String
without_slash s = if has_suffix s "/" then without_suffix s "/" else s

-- `trim` is `strings.TrimSpace`.
unfoldable pub normalize_base : (String → String) → String → String
normalize_base trim s = with_scheme (without_slash (trim s))
