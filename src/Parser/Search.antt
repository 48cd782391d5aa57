-- ===== src/Parser/Search.antt =====
-- ini_and_parser/src/parser.cpp and include/parser.h: Config_searching. The file system is an
-- argument: what the directory iterator gives for each directory. A directory is the list of its
-- names from the innermost one out, so that the root is the empty list and the tail is "..".
pub mod Scan
pub mod Nearest
pub mod Near
use pet_project.Base.{
  ℕ, zero, suc, ◌+◌, ◌-◌, Bool, true, false, not, ◌&&◌, Option, none, some, List, [], ◌∷◌, ◌++◌,
  leb, if◌then◌else◌, ◌>>=◌,
}
use pet_project.Base.Text.{Text, lit, text_eq}
use pet_project.Handler.Dir.{path_append}

-- The type that a status has: a file has one of them.
pub data FileType : Type 0 where
  regular directory other : FileType

pub record Item : Type 0 where
  pub filename : Text
  pub file_type : FileType

abbrev pub Directory : Type 0
Directory = List Text

abbrev pub FileSystem : Type 0
FileSystem = Directory → List Item

-- fs::is_regular_file and fs::is_directory
abbrev pub is_regular_file : Item → Bool
is_regular_file e = elim e.file_type [ regular ↦ true | directory ↦ false | other ↦ false ]

abbrev pub is_directory : Item → Bool
is_directory e = elim e.file_type [ regular ↦ false | directory ↦ true | other ↦ false ]

-- directory.string()
unfoldable pub dir_text : Directory → Text
dir_text [] = lit "/"
dir_text (n ∷ d) = path_append (dir_text d) n

-- fs::current_path() == "/"
abbrev pub is_root : Directory → Bool
is_root [] = true
is_root (n ∷ d) = false

-- directory / ".."
abbrev pub parent : Directory → Directory
parent [] = []
parent (n ∷ d) = d

-- The members of Config_searching, and the process's working directory.
pub record Search : Type 0 where
  pub level_down : ℕ
  pub level_up : ℕ
  pub config_founded : Bool
  pub path : Text
  pub current_path : Directory

pub data Outcome : Type 0 where
  returned : Search → Outcome
  -- c_s_exception with its message
  thrown : Text → Outcome

abbrev pub not_founded : Text → Outcome
not_founded config = thrown (config ++ lit " not founded")

-- The four conditions for a directory that is to be searched too.
abbrev enters : Text → Directory → Item → Search → Bool
enters previous dir e s =
    let object = path_append (dir_text dir) e.filename in
    not (text_eq object (path_append (dir_text dir) (lit "..")))
    && (not (text_eq object (path_append (dir_text dir) (lit ".")))
        && (leb s.level_down 3 && not (text_eq object previous)))

module _ (config : Text) where
  -- The loop of searching_forward over the entries of `dir`. `descend` is its recursive call, and
  -- `leave` what follows the loop.
  unfoldable pub each_entry :
      (Search → Option Outcome)
      → (Search → Option Outcome)
      → Text
      → Directory
      → List Item
      → Search
      → Option Outcome
  unfolding path_append
  each_entry descend leave previous dir [] s = leave s
  each_entry descend leave previous dir (e ∷ es) s = elim (is_regular_file e) [
    | false ↦ each_entry descend leave previous dir es s
    | true ↦ elim (is_directory e && enters previous dir e s) [
      | true ↦ do
        r ← descend (record s { level_down = s.level_down + 1; current_path = e.filename ∷ dir })
        elim r [
          | thrown message ↦ some (thrown message)
          | returned t ↦
              each_entry descend leave previous dir es (record t { level_down = t.level_down - 1 })
        ]
      | false ↦
          let rest = each_entry descend leave previous dir es s in
          let here = record s {
            path = path_append (dir_text dir) e.filename;
            config_founded = true;
          } in
          if is_directory e
          then rest
          else if s.config_founded
          then some (returned s)
          else if text_eq e.filename config
          then some (returned here)
          else rest
    ]
  ]

  -- The end of searching_forward: the exception at the root, or a step up.
  unfoldable pub leave_to_parent : Directory → Search → Option Outcome
  leave_to_parent dir s =
      if is_root s.current_path
      then some (not_founded config)
      else some (returned (record s { current_path = parent dir }))

  -- searching_backward's loop over the entries of a directory
  unfoldable pub has_config : List Item → Bool
  has_config [] = false
  has_config (e ∷ es) =
      let rest = has_config es in
      if is_regular_file e && text_eq e.filename config then true else rest

module _ (files : FileSystem) (config : Text) where
  -- The fuel is the depth of the recursion. The working directory is read once, at the start.
  unfoldable pub searching_forward : ℕ → Text → Search → Option Outcome
  unfolding each_entry leave_to_parent
  searching_forward zero previous s = none
  searching_forward (suc fuel) previous s =
      each_entry config (searching_forward fuel previous) (leave_to_parent config s.current_path)
        previous s.current_path (files s.current_path) s

  -- searching_backward, from the working directory; what it finds is the directory.
  unfoldable pub searching_backward : Directory → Search → Outcome
  unfolding has_config
  searching_backward [] s =
      if has_config config (files [])
      then returned (record s { path = dir_text []; config_founded = true; current_path = [] })
      else not_founded config
  searching_backward (n ∷ d) s =
      let rest = searching_backward d s in
      if has_config config (files (n ∷ d))
      then returned
          (record s { path = dir_text (n ∷ d); config_founded = true; current_path = n ∷ d })
      else rest

  -- The loop of searching_begin, whose previousDir stays empty: the body declares another one. Each
  -- round raises level_up; a directory is entered at the levels 0 to 3 only, so the depth is 5.
  unfoldable pub upward : ℕ → Search → Option Outcome
  unfolding searching_forward
  upward zero s = none
  upward (suc fuel) s =
      if not s.config_founded && leb s.level_up 3
      then (do
        r ← searching_forward 5 [] s
        elim r [
          | thrown message ↦ some (thrown message)
          | returned t ↦ upward fuel (record t { level_up = t.level_up + 1 })
        ])
      else some (returned s)

  unfoldable pub searching_begin : Search → Option Outcome
  unfolding upward searching_backward
  searching_begin s = do
    r ← upward 5 s
    elim r [
      | thrown message ↦ some (thrown message)
      | returned t ↦
          if t.config_founded then some (returned t) else some (searching_backward t.current_path t)
    ]

  -- Config_searching(config), in this working directory
  unfoldable pub construct : Directory → Option Outcome
  unfolding searching_begin
  construct dir = searching_begin (record {
    level_down = 0;
    level_up = 0;
    config_founded = false;
    path = [];
    current_path = dir;
  })
