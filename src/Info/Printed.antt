-- ===== src/Info/Printed.antt =====
-- util/container_info.cpp: how a container is printed. The decimal form of a number and strftime of a
-- local time are arguments.
use hoststack.Prelude.{
  ℕ, suc, ◌+◌, ◌-◌, ◌≤◌, ◌≡◌, ap, ◌∙◌, ◌∷◌, ◌++◌, length, length-append, replicate,
  length-replicate, arith, ℤ, if◌then◌else◌, int_eq, Bool-cases, inl, inr,
}
use hoststack.Prelude.Text.{Text, codes}
use hoststack.Info.{
  container_running, container_stoped, ContainerInfo, get_status_name, get_name, is_empty,
}

-- "%-WIDTHs": blanks fill the field, and a longer text is not cut.
abbrev pub field : ℕ → Text → Text
field width s = s ++ replicate (width - length s) 32

-- The fields of INFO_FORMAT and TITLE_FORMAT, with a blank between two.
abbrev pub columns : (id name pid status command time : Text) → Text
columns id name pid status command time =
    field 40 id
    ++ (32
        ∷ (field 20 name
            ++ (32
                ∷ (field 10 pid
                    ++ (32
                        ∷ (field 10 status
                            ++ (32 ∷ (field 30 command ++ (32 ∷ field 20 time)))))))))

unfoldable pub show_title : Text
show_title =
    columns (codes "ID") (codes "NAME") (codes "PID") (codes "STATUS") (codes "COMMAND")
      (codes "CREATED TIME")
    ++ codes " \n"

module _ (decimal : ℤ → Text) (format_time : ℤ → Text) where
  unfoldable pub show : ContainerInfo → Text
  unfolding get_status_name get_name
  show info =
      columns info.id (get_name info) (decimal info.pid) (get_status_name info) info.command
        (format_time info.create_time)
      ++ codes "\n"

  -- operator<<
  unfoldable pub output : ContainerInfo → Text
  unfolding get_status_name
  output info =
      let name = if is_empty info.name then codes "---" else info.name in
      info.id
      ++ (codes "\t\""
          ++ (name
              ++ (codes "\"\t"
                  ++ (decimal info.pid
                      ++ (codes "\t"
                          ++ (get_status_name info
                              ++ (codes "\t\""
                                  ++ (info.command
                                      ++ (codes "\"\t\""
                                          ++ (format_time info.create_time ++ codes "\"\n"))))))))))

length-status : (info : ContainerInfo) → length (get_status_name info) ≤ 10
unfolding get_status_name
length-status info = elim (Bool-cases (int_eq info.status container_running)) [
  | inl e ↦ rw e (omega arith)
  | inr e ↦ elim (Bool-cases (int_eq info.status container_stoped)) [
    | inl d ↦ rw (e, d) (omega arith)
    | inr d ↦ rw (e, d) (omega arith)
  ]
]

length-columns :
    (id name pid status command time : Text)
    → length id ≤ 40
    → length name ≤ 20
    → length pid ≤ 10
    → length status ≤ 10
    → length command ≤ 30
    → length time ≤ 20
    → length (columns id name pid status command time) ≡ 135
length-columns id name pid status command time a b c d e f =
    simp (length-append, length-replicate) (omega (arith, a, b, c, d, e, f))

-- Where each text fits its field, a row is as long as the title, but for the blank at the title's end.
pub length-show :
    (decimal format_time : ℤ → Text) (info : ContainerInfo)
    → length info.id ≤ 40
    → length (get_name info) ≤ 20
    → length (decimal info.pid) ≤ 10
    → length info.command ≤ 30
    → length (format_time info.create_time) ≤ 20
    → suc (length (show decimal format_time info)) ≡ length show_title
unfolding show show_title
length-show decimal format_time info a b c e f = ap suc (
    length-append _ (codes "\n")
    ∙ ap (λ n. n + 1)
        (length-columns info.id _ _ (get_status_name info) info.command _ a b c (length-status info)
          e f))
