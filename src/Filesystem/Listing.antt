-- ===== src/Filesystem/Listing.antt =====
-- What is printed: `filesystem_ls`, `filesystem_pwd` and `filesystem_tree` of kernel/filesystem.c.
use pine_os.Base.{
  ℕ, zero, suc, ◌+◌, ◌/◌, ◌%◌, Option, none, some, [], ◌∷◌, ◌++◌, ltb, ◌==◌, if◌then◌else◌, not, ℤ,
  pos,
}
use mathlib.Core.List.{reverse}
use pine_os.CString.{Text, strlen}
use pine_os.Machine.{Entry, ok, fault, out_of_fuel, Cmd, pure, and_then, ◌>>◌, codes, puts, say}
use pine_os.Filesystem.Paths.{max_path, type_file, type_dir, sibling_fuel, find_file}
use pine_os.Filesystem.Files.{complain}

-- `do { size_str[i++] = '0' + size % 10; size /= 10; } while (size > 0)`: the digits, last first
unfoldable pub digits_rev : ℕ → ℕ → Text
digits_rev zero n = []
digits_rev (suc f) n =
    let more = digits_rev f (n / 10) in (b'0' + n % 10) ∷ (if ltb 0 (n / 10) then more else [])

-- The buffer `size_str[16]` has room for every `int`, which has ten digits at most.
unfoldable pub decimal : ℕ → Text
unfolding digits_rev
decimal n = reverse (digits_rev 16 n)

-- One line of `ls`.
unfoldable pub ls_line : Entry → Text
unfolding decimal
ls_line e =
    codes "  "
    ++ ((if e.kind == type_dir then codes "[DIR] " else codes "      ")
        ++ (e.name
            ++ ((if e.kind == type_file
                  then codes " (" ++ (decimal e.size ++ codes " bytes)")
                  else [])
                ++ codes "\n")))

-- `while (child)`
unfoldable pub ls_children : ℕ → Option ℕ → Cmd ℤ
unfolding ls_line
ls_children zero c s = out_of_fuel
ls_children (suc f) none s = ok (pos 0) s
ls_children (suc f) (some i) s =
    and_then (puts (ls_line (s.entries i)) s) (λ _. ls_children f (s.entries i).next)

unfoldable pub ls_dir : Option ℕ → Cmd ℤ
unfolding ls_children complain
ls_dir none s = complain (codes "Error: Directory not found\n") s
ls_dir (some i) s =
    let e = s.entries i in
    if not (e.kind == type_dir)
    then complain (codes "Error: Not a directory\n") s
    else and_then (puts (codes "Contents of " ++ (e.name ++ codes ":\n")) s) (λ _. elim e.children [
      | none ↦ (do say "  (empty)\n"; pure (pos 0))
      | some c ↦ ls_children sibling_fuel (some c)
    ])

-- A null or empty path is the current directory.
unfoldable pub ls : Text → Cmd ℤ
unfolding ls_dir
ls [] s = ls_dir (some s.current_dir) s
ls (c ∷ path) s = and_then (find_file (c ∷ path) s) ls_dir

-- `filesystem_pwd` prepends the names on the way up in the buffer `temp`, which it does not clear:
-- behind the bytes that it copies there the string goes on with what the stack held. `stack k` is
-- that text, from the offset `k` up to the next NUL.
module _ (stack : ℕ → Text) where
  unfoldable pub pwd_step : Text → Text → Text
  pwd_step name path = let front = b'/' ∷ (name ++ path) in front ++ stack (strlen front)

  unfoldable pub pwd_loop : ℕ → ℕ → Text → Cmd ℤ
  unfolding pwd_step
  pwd_loop zero i path s = out_of_fuel
  pwd_loop (suc f) i path s =
      let up : Cmd ℤ = elim (s.entries i).parent [
        | none ↦ (do puts (pwd_step (s.entries i).name path); say "\n"; pure (pos 0))
        | some p ↦ pwd_loop f p (pwd_step (s.entries i).name path)
      ] in
      if i == s.root
      then (do puts (if strlen path == 0 then codes "/" else path); say "\n"; pure (pos 0)) s
      else if ltb max_path (strlen (pwd_step (s.entries i).name path) + 1)
      then fault
      else up s

  -- the way up has at most 150 entries
  unfoldable pub pwd : Cmd ℤ
  unfolding pwd_loop
  pwd s = pwd_loop sibling_fuel s.current_dir [] s

unfoldable pub indent : ℕ → Text
indent zero = []
indent (suc n) = codes "  " ++ indent n

-- The loop over the children; `again` is the call of `filesystem_tree` for a directory.
unfoldable pub tree_children : (Text → ℕ → Cmd (Unit {0})) → ℕ → ℕ → Option ℕ → Cmd (Unit {0})
unfolding indent
tree_children again zero depth c s = out_of_fuel
tree_children again (suc f) depth none s = ok tt s
tree_children again (suc f) depth (some i) s =
    let e = s.entries i in
    and_then
      (if e.kind == type_dir
        then and_then (puts (indent (depth + 1) ++ (e.name ++ codes "/\n")) s)
            (λ _. again e.name (depth + 2))
        else puts (indent (depth + 1) ++ (e.name ++ codes "\n")) s)
      (λ _ s'. tree_children again f depth (s'.entries i).next s')

unfoldable pub tree_dir : (Text → ℕ → Cmd (Unit {0})) → ℕ → Option ℕ → Cmd (Unit {0})
unfolding tree_children
tree_dir again depth none s = ok tt s
tree_dir again depth (some i) s =
    let e = s.entries i in
    if not (e.kind == type_dir)
    then ok tt s
    else and_then (puts (indent depth ++ (e.name ++ codes "/\n")) s)
        (λ _. tree_children again sibling_fuel depth e.children)

-- The fuel bounds the depth of the recursion, which the kernel's stack bounds.
unfoldable pub tree : ℕ → Text → ℕ → Cmd (Unit {0})
unfolding tree_dir
tree zero path depth s = out_of_fuel
tree (suc f) [] depth s = tree_dir (tree f) depth (some s.current_dir) s
tree (suc f) (c ∷ path) depth s = and_then (find_file (c ∷ path) s) (tree_dir (tree f) depth)
