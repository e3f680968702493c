-- ===== src/Api/Paths.antt =====
-- internal/api/utils.go: paths. `lower` and `trim` stand for `strings.ToLower` and for
-- `strings.TrimRight` of slashes and backslashes.
use Prim.Native.Char.{code}
use Prim.Native.String.{String}
use we_sync.Base.{◌||◌, Option, none, some, or_else, ◌==◌, if◌then◌else◌}

unfoldable pub norm_path : (String → String) → (String → String) → String → String
norm_path lower trim p = trim (lower p)

-- What follows the last slash or backslash.
unfoldable pub after_separator : String → Option String
after_separator String.[] = none
after_separator (String.◌∷◌ c s) =
    let rest = after_separator s in
    elim rest [ some r ↦ some r | none ↦ if (code c == 47) || (code c == 92) then some s else none ]

unfoldable pub last_path_component : (String → String) → String → String
unfolding after_separator
last_path_component trim path = or_else (trim path) (after_separator (trim path))
