-- ===== src/Prelude/Text.antt =====
-- Texts as `fmt.Sprintf` joins them, and `strings.TrimRight` for the cut set "/".
use Prim.Native.Char.{code}
use Prim.Native.String.{String, [], ◌∷◌, ◌++◌ as append}
use mathlib.Core.Bool.{◌&&◌}
use text.Mathlib.Text.{◌==◌}
use volume_snapshot_mover.Prelude.Tests.{nat_eq, if◌then◌else◌}

-- `fmt.Sprintf("%s%s", s, t)`.
abbrev pub concat : String → String → String
concat s t = append s t

-- `strings.TrimRight(s, "/")`.
unfoldable pub trim_slashes : String → String
trim_slashes [] = []
trim_slashes (c ∷ s) =
    let rest = trim_slashes s in if nat_eq (code c) b'/' && (rest == "") then "" else c ∷ rest
