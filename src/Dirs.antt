-- ===== src/Dirs.antt =====
-- common/usg_common.cpp: mkdir_r, mkdiratfd_r and mkdirat_r, which make a directory and those above
-- it, over the system calls as an interface. A result is `true` for 0 and `false` for -1, and
-- `none` the end of the fuel.
pub mod Made
pub mod Tree
use hoststack.Prelude.{
  ℕ, zero, suc, ◌+◌, ◌≡◌, Bool, true, false, Option, none, some, List, [], ◌∷◌, if◌then◌else◌, ◌==◌,
  take, length,
}
use hoststack.Prelude.Text.{Text, codes, text_eq}
use hoststack.Strings.Search.{strstr_r}

pub record Dirs : Type 1 where
  pub State : Type 0
  pub exists : Text → State → Bool
  pub mkdir : Text → State → Option State
  pub mkdir_exists : (path : Text) (s t : State) → mkdir path s ≡ some t → exists path t ≡ true
  pub mkdir_keeps :
      (path q : Text) (s t : State) → mkdir path s ≡ some t → exists q s ≡ true → exists q t ≡ true

-- PATH_SEPERATOR
abbrev pub seperator : Text
seperator = codes "/"

-- The part of a path before its last separator.
unfoldable pub parent_of : Text → Option Text
parent_of path = elim (strstr_r (some path) seperator) [ none ↦ none | some i ↦ some (take i path) ]

-- The loop of mkdiratfd_r, which first cuts separators off the end. Each round shortens the path.
unfoldable pub find_parent : ℕ → Text → Option Text
find_parent zero parent = none
find_parent (suc fuel) parent = elim (strstr_r (some parent) seperator) [
  | none ↦ none
  | some i ↦
      let again = find_parent fuel (take i parent) in
      if (i + 1) == length parent then again else some (take i parent)
]

module _ (dirs : Dirs) where
  abbrev pub Result : Type 0
  Result = Option (Bool × dirs.State)

  abbrev pub make : Text → dirs.State → Result
  make path s = elim (dirs.mkdir path s) [ none ↦ some (false, s) | some t ↦ some (true, t) ]

  -- What follows the call for the parent.
  abbrev pub after_parent : Result → (dirs.State → Result) → Result
  after_parent none go = none
  after_parent (some (false, t)) go = some (false, t)
  after_parent (some (true, t)) go = go t

  -- The end of mkdir_r: the call for the empty path, above the root, has nothing to make.
  abbrev pub make_last : Text → dirs.State → Result
  make_last [] s = some (true, s)
  make_last (c ∷ path) s = make (c ∷ path) s

  pub mkdir_r : ℕ → Text → dirs.State → Result
  unfolding parent_of
  mkdir_r zero path s = none
  mkdir_r (suc fuel) path s = elim (dirs.exists path s) [
    | true ↦ some (true, s)
    | false ↦ elim (text_eq path seperator) [
      | true ↦ make path s
      | false ↦ elim (parent_of path) [
        | none ↦ make_last path s
        | some parent ↦ after_parent (mkdir_r fuel parent s) (make_last path)
      ]
    ]
  ]

  -- The directory of the descriptor is part of the state.
  pub mkdiratfd_r : ℕ → Text → dirs.State → Result
  unfolding find_parent
  mkdiratfd_r zero path s = none
  mkdiratfd_r (suc fuel) path s = elim (dirs.exists path s) [
    | true ↦ some (true, s)
    | false ↦ elim (text_eq path seperator) [
      | true ↦ make path s
      | false ↦ elim (find_parent (suc (length path)) path) [
        | none ↦ make path s
        | some parent ↦ after_parent (mkdiratfd_r fuel parent s) (make path)
      ]
    ]
  ]

  -- opendir fails, or the calls are relative to the directory.
  pub mkdirat_r : Bool → Text → dirs.State → Result
  unfolding mkdiratfd_r
  mkdirat_r opened path s =
      if opened then mkdiratfd_r (suc (length path)) path s else some (false, s)
