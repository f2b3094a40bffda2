-- ===== src/Kernel/Table.antt =====
-- A kernel whose state is its table of mounts, and that refuses no mount.
use hoststack.Prelude.{◌≡◌, true, some, List, ◌∷◌}
use hoststack.Kernel.{Mount, Kernel, take_off}

pub some_head : {m : Mount} {s t : List Mount} → some (m ∷ s) ≡ some t → t ≡ m ∷ s
some_head e = cc

abbrev pub table_kernel : Kernel
table_kernel = record {
  State = List Mount;
  exists = λ path. true;
  mount = λ m s. some (m ∷ s);
  umount = take_off;
  mounts = λ s. s;
  mounts-mount = λ m s t e. some_head e;
  mounts-umount = λ path s t e. e;
}
