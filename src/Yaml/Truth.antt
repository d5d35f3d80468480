-- ===== src/Yaml/Truth.antt =====
-- The truth of a loaded value, and `v or other`.
use gitz.Common.{◌==◌, Bool, true, false, not, Option, none, some, if◌then◌else◌}
use gitz.Common.Int.{pos, negsuc}
use gitz.Common.Str.{is_empty}
use gitz.Yaml.{Value, null, bool, int, float, str, seq, dict, nil, cons, end, field}

-- `bool(v)`
unfoldable pub truthy : Value → Bool
truthy null = false
truthy (bool b) = b
truthy (int (pos n)) = not (n == 0)
truthy (int (negsuc n)) = true
truthy (float x) = not (x.mantissa == 0)
truthy (str s) = not (is_empty s)
truthy (seq nil) = false
truthy (seq (cons v vs)) = true
truthy (dict end) = false
truthy (dict (field k v fs)) = true

-- `d.get(k) or other`
unfoldable pub or_value : Option Value → Value → Value
unfolding truthy
or_value none other = other
or_value (some v) other = if truthy v then v else other
