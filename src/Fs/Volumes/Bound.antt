-- ===== src/Fs/Volumes/Bound.antt =====
-- util/container_fs.cpp: volumes that are written SOURCE:TARGET.
use hoststack.Prelude.{◌≡◌, [], ◌∷◌, ◌++◌, true, ◌==◌}
use hoststack.Prelude.Text.{Text}
use hoststack.Libc.{NoneIn}
use hoststack.Kernel.{Kernel}
use hoststack.Fs.Balance.{Accepts, Unmounts}
use hoststack.Paths.{get_merged_dir}
use hoststack.Strings.Join.Contents.{below_all}
use hoststack.Fs.Volumes.{colon}

-- An absolute path without a colon.
abbrev pub IsPath : Text → Type 0
IsPath [] = ⊥
IsPath (c ∷ path) = ((c == 47) ≡ true) × NoneIn colon (c ∷ path)

module _ (kernel : Kernel) (accepts : Accepts kernel) (unmounts : Unmounts kernel)
    (id src dest : Text) where
  abbrev volume : Text
  volume = src ++ (colon ++ dest)

  -- Where a volume is bound.
  abbrev pub target_of : Text
  target_of = below_all (get_merged_dir id) (dest ∷ [])
