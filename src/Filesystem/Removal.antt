-- ===== src/Filesystem/Removal.antt =====
-- Removing and copying: `filesystem_rm`, `filesystem_rmdir` and `filesystem_cp` of
-- kernel/filesystem.c.
use pine_os.Base.{
  ℕ, zero, suc, Bool, true, false, Option, none, some, ◌==◌, if◌then◌else◌, not, ℤ, pos,
}
use pine_os.CString.{Text}
use pine_os.Machine.{
  Entry, ok, fault, out_of_fuel, Cmd, pure, and_then, ◌>>=◌, ◌>>◌, codes, puts, say, free, update,
  read_entry, set_entry,
}
use pine_os.Ram.{text_at}
use pine_os.Filesystem.Paths.{type_file, type_dir, is_zero, sibling_fuel, find_file}
use pine_os.Filesystem.Files.{complain, report, write_file}

abbrev pub is_null : Option ℕ → Bool
is_null none = true
is_null (some _) = false

-- the pointer is the address of the entry `i`
abbrev pub is_at : Option ℕ → ℕ → Bool
is_at none i = false
is_at (some j) i = j == i

-- The walk to the sibling in front of `i`; the outer `none` means out of fuel.
unfoldable pub find_prev : ℕ → (ℕ → Entry) → Option ℕ → ℕ → Option (Option ℕ)
find_prev zero es c i = none
find_prev (suc f) es none i = some none
find_prev (suc f) es (some j) i = elim (is_at (es j).next i) [
  | true ↦ some (some j)
  | false ↦ find_prev f es (es j).next i
]

-- `if (sibling) sibling->next = next`
abbrev pub bypass : Option (Option ℕ) → Option ℕ → Cmd (Unit {0})
bypass none next s = out_of_fuel
bypass (some none) next s = ok tt s
bypass (some (some j)) next s =
    ok tt (record s { entries = set_entry s.entries j (record (s.entries j) { next = next }) })

-- The entry `i` leaves its parent's children; the parent of the root is null.
unfoldable pub unlink : Option ℕ → ℕ → Cmd (Unit {0})
unfolding find_prev
unlink none i s = fault
unlink (some p) i s =
    if is_at (s.entries p).children i
    then ok tt (record s {
      entries = set_entry s.entries p (record (s.entries p) { children = (s.entries i).next });
    })
    else bypass (find_prev sibling_fuel s.entries (s.entries p).children i) (s.entries i).next s

unfoldable pub release_content : ℕ → Cmd (Unit {0})
release_content p = if p == 0 then pure tt else free p

unfoldable pub rm_found : Text → Option ℕ → Cmd ℤ
unfolding unlink release_content
rm_found name none = complain (codes "Error: File not found\n")
rm_found name (some i) = do
  e ← read_entry i
  if not (e.kind == type_file) then complain (codes "Error: Not a file\n") else do
    unlink e.parent i
    release_content e.content
    update i (λ e. record e { used = false })
    report (codes "File removed: ") name (pos 0)

unfoldable pub rm : Text → Cmd ℤ
unfolding rm_found
rm name = do file ← find_file name; rm_found name file

unfoldable pub rmdir_found : Text → Option ℕ → Cmd ℤ
unfolding unlink
rmdir_found name none s = complain (codes "Error: Directory not found\n") s
rmdir_found name (some i) s =
    let e = s.entries i in
    if not (e.kind == type_dir)
    then complain (codes "Error: Not a directory\n") s
    else if i == s.root
    then complain (codes "Error: Cannot remove root directory\n") s
    else if not (is_null e.children)
    then complain (codes "Error: Directory not empty\n") s
    else and_then (unlink e.parent i s) (λ _.
      update i (λ e. record e { used = false })
      >> report (codes "Directory removed: ") name (pos 0))

unfoldable pub rmdir : Text → Cmd ℤ
unfolding rmdir_found
rmdir name = do dir ← find_file name; rmdir_found name dir

-- `src_data` as the C string that `filesystem_write_file` reads
abbrev pub with_text : Option Text → (Text → Cmd ℤ) → Cmd ℤ
with_text none k s = out_of_fuel
with_text (some t) k s = k t s

unfoldable pub is_dir : Option ℕ → (ℕ → Entry) → Bool
is_dir none es = false
is_dir (some i) es = (es i).kind == type_dir

unfoldable pub announce : Text → Text → ℤ → Cmd ℤ
announce src dest r =
    if is_zero r
    then (do say "File copied: "; puts src; say " -> "; puts dest; say "\n"; pure r)
    else pure r

-- `fuel` bounds the scan for the NUL of the source.
module _ (fuel : ℕ) where
  unfoldable pub cp_to : Text → Text → ℕ → Option ℕ → Cmd ℤ
  unfolding is_dir announce
  cp_to src dest p dest_file s =
      if is_dir dest_file s.entries
      then complain (codes "Error: Destination is a directory\n") s
      else with_text (text_at fuel s.ram p) (λ t. write_file dest t >>= announce src dest) s

  unfoldable pub cp_found : Text → Text → Option ℕ → Cmd ℤ
  unfolding cp_to
  cp_found src dest none = complain (codes "Error: Source file not found\n")
  cp_found src dest (some i) = do
    e ← read_entry i
    if not (e.kind == type_file)
        then complain (codes "Error: Source is not a file\n")
        else if e.content == 0
        then complain (codes "Error: Source file is empty\n")
        else do dest_file ← find_file dest; cp_to src dest e.content dest_file

  unfoldable pub cp : Text → Text → Cmd ℤ
  unfolding cp_found
  cp src dest = do src_file ← find_file src; cp_found src dest src_file
