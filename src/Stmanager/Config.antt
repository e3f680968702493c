-- ===== src/Stmanager/Config.antt =====
-- internal/stmanager/manager.go: Syncthing's binary and its configuration file. The contents of
-- files are texts. The XML decoder, `strings.ReplaceAll`, `filepath.Join` and the operating system's
-- answers are arguments.
use we_sync.Base.{
  Bool, true, false, not, List, Option, none, some, String, if◌then◌else◌, ◌is◌, text_append,
}

-- What a call returns, or the error's kind.
pub data Found : Type 0 where
  at_path : String → Found
  override_missing : Found
  no_executable : Found  -- `ExeDir` failed
  not_found : Found
  no_embedded : Found
  not_written : Found

unfoldable pub binary_name : Bool → String
binary_name windows = if windows then "syncthing.exe" else "syncthing"

-- `path_override` is `SyncthingPathOverride`, `exe_dir` the answer of `ExeDir`.
unfoldable pub find_syncthing :
    (String → String → String) → (String → Bool) → String → Option String → Bool → Found
unfolding binary_name
find_syncthing join exists path_override exe_dir windows =
    if not (path_override is "")
    then (if exists path_override then at_path path_override else override_missing)
    else elim exe_dir [
      | none ↦ no_executable
      | some dir ↦
          let path = join dir (binary_name windows) in
          if exists path then at_path path else not_found
    ]

-- The result, and whether the binary was written.
unfoldable pub extract_embedded :
    (String → String → String)
    → (String → Bool)
    → (String → Bool)
    → Bool
    → Option String
    → Bool
    → Found × Bool
unfolding binary_name
extract_embedded join exists writable embedded exe_dir windows =
    if not embedded then (no_embedded, false) else elim exe_dir [
      | none ↦ (no_executable, false)
      | some dir ↦
          let path = join dir (binary_name windows) in
          if exists path
          then (at_path path, false)
          else (if writable path then (at_path path, true) else (not_written, false))
    ]

-- The fields of `config.xml` that are decoded.
pub record StFolder : Type 0 where
  pub id : String
  pub path : String
  pub type : String

pub record GuiConfig : Type 0 where
  pub api_key : String
  pub address : String

pub record StConfig : Type 0 where
  pub gui : GuiConfig
  pub folders : List StFolder

unfoldable pub read_api_key : (String → Option StConfig) → Option String → Option String
read_api_key decode none = none
read_api_key decode (some data_) = elim (decode data_) [
  | none ↦ none
  | some cfg ↦ if cfg.gui.api_key is "" then none else some cfg.gui.api_key
]

unfoldable pub read_folders : (String → Option StConfig) → Option String → Option (List StFolder)
read_folders decode none = none
read_folders decode (some data_) = elim (decode data_) [ none ↦ none | some cfg ↦ some cfg.folders ]

abbrev pub target : String
target = "127.0.0.1:8385"

pub data Patched : Type 0 where
  unreadable : Patched
  undecodable : Patched
  already_correct : Patched
  not_verbatim : Patched
  rewritten : (content : String) → Patched

abbrev pub address_tag : String → String
address_tag address = text_append "<address>" (text_append address "</address>")

unfoldable pub patch_port :
    (String → Option StConfig) → (String → String → String → String) → Option String → Patched
patch_port decode replace_all none = unreadable
patch_port decode replace_all (some data_) = elim (decode data_) [
  | none ↦ undecodable
  | some cfg ↦
      if cfg.gui.address is target
      then already_correct
      else let content = replace_all data_ (address_tag cfg.gui.address) (address_tag target) in
        if content is data_ then not_verbatim else rewritten content
]

pub data Prepared : Type 0 where
  not_made : Prepared  -- the directory
  not_generated : Prepared
  prepared : Patched → Prepared

-- `made` and `generated` are the outcomes of `os.MkdirAll` and `syncthing generate`; the file is
-- read before and after.
unfoldable pub ensure_ready :
    (String → Option StConfig)
    → (String → String → String → String)
    → Bool
    → Bool
    → Bool
    → Option String
    → Prepared
unfolding patch_port
ensure_ready decode replace_all exists made generated content =
    if exists
    then prepared (patch_port decode replace_all content)
    else (if not made
        then not_made
        else (if not generated
            then not_generated
            else prepared (patch_port decode replace_all content)))
