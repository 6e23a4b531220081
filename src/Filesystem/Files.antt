-- ===== src/Filesystem/Files.antt =====
-- Making, writing and reading files and directories: `filesystem_mkdir`, `filesystem_touch`,
-- `filesystem_write_file`, `filesystem_read_file` and `filesystem_cd` of kernel/filesystem.c.
use pine_os.Base.{
  ℕ, ◌+◌, ◌-◌, Option, none, some, [], ◌∷◌, leb, ◌==◌, if◌then◌else◌, not, take, ℤ, pos, minus_one,
}
use pine_os.CString.{Text, strlen}
use pine_os.Machine.{
  ok, Cmd, pure, crash, and_then, ◌>>=◌, ◌>>◌, codes, puts, say, alloc, update, read_entry,
  set_entry,
}
use pine_os.Ram.{put_bytes, poke}
use pine_os.Filesystem.Paths.{
  max_file_size, type_file, type_dir, is_zero, create_file, start, find_file,
}

-- the entry becomes the first child
unfoldable pub link : ℕ → ℕ → Cmd (Unit {0})
link parent i = do
  p ← read_entry parent
  update i (λ e. record e { parent = some parent; next = p.children })
  update parent (λ e. record e { children = some i })

-- `vga_puts(before); vga_puts(name); vga_puts("\n")`, and the result
unfoldable pub report : Text → Text → ℤ → Cmd ℤ
report before name r = do puts before; puts name; say "\n"; pure r

unfoldable pub complain : Text → Cmd ℤ
complain t = do puts t; pure minus_one

-- What `mkdir` does with the result of `filesystem_create_file`.
unfoldable pub attach_dir : ℕ → Text → Option ℕ → Cmd ℤ
unfolding link report complain
attach_dir parent name none = complain (codes "Error: Cannot create directory\n")
attach_dir parent name (some i) = do
  link parent i
  report (codes "Directory created: ") name (pos 0)

unfoldable pub make_dir : ℕ → Text → Option ℕ → Cmd ℤ
unfolding attach_dir create_file
make_dir parent name (some i) = complain (codes "Error: Directory already exists\n")
make_dir parent name none = do new_dir ← create_file name type_dir; attach_dir parent name new_dir

-- The search for the stripped name starts from the current directory.
unfoldable pub mkdir : Text → Cmd ℤ
unfolding make_dir find_file
mkdir name s =
    let (parent, rest) = start name s in and_then (find_file rest s) (make_dir parent rest)

unfoldable pub attach_file : ℕ → Text → Option ℕ → Cmd ℤ
unfolding link report complain
attach_file parent name none = complain (codes "Error: Cannot create file\n")
attach_file parent name (some i) = do
  p ← alloc max_file_size
  update i (λ e. record e { content = p })
  if p == 0
      then complain (codes "Error: Out of memory\n")
      else do link parent i; report (codes "File created: ") name (pos 0)

unfoldable pub make_file : ℕ → Text → Option ℕ → Cmd ℤ
unfolding attach_file create_file
make_file parent name (some i) = complain (codes "Error: File already exists\n")
make_file parent name none = do
  new_file ← create_file name type_file
  attach_file parent name new_file

unfoldable pub touch : Text → Cmd ℤ
unfolding make_file find_file
touch name s =
    let (parent, rest) = start name s in and_then (find_file rest s) (make_file parent rest)

-- how much of the content is written
unfoldable pub kept : Text → Text
kept content =
    take (if leb max_file_size (strlen content) then max_file_size - 1 else strlen content) content

abbrev pub put_content : ℕ → ℕ → Text → Cmd (Unit {0})
put_content i p t s = ok tt (record s {
  ram = poke (put_bytes s.ram p t) (p + strlen t) 0;
  entries = set_entry s.entries i (record (s.entries i) { size = strlen t });
})

-- `none` is the null pointer, of which `file->type` is read.
unfoldable pub store : Option ℕ → Text → Cmd ℤ
unfolding complain kept
store none content = crash
store (some i) content = do
  e ← read_entry i
  if not (e.kind == type_file)
      then complain (codes "Error: Not a file\n")
      else if e.content == 0
      then crash
      else do put_content i e.content (kept content); pure (pos 0)

unfoldable pub write_found : Text → Text → Option ℕ → Cmd ℤ
unfolding store touch find_file
write_found name content (some i) = store (some i) content
write_found name content none = do
  r ← touch name
  if not (is_zero r) then pure minus_one else do file ← find_file name; store file content

unfoldable pub write_file : Text → Text → Cmd ℤ
unfolding write_found find_file
write_file name content = do file ← find_file name; write_found name content file

-- the pointer, null on failure
unfoldable pub read_found : Option ℕ → Cmd ℕ
read_found none = do say "Error: File not found\n"; pure 0
read_found (some i) = do
  e ← read_entry i
  if not (e.kind == type_file) then (do say "Error: Not a file\n"; pure 0) else pure e.content

unfoldable pub read_file : Text → Cmd ℕ
unfolding read_found find_file
read_file name = do file ← find_file name; read_found file

-- `fs.current_dir = i`
abbrev pub enter : ℕ → Cmd ℤ
enter i s = ok (pos 0) (record s { current_dir = i })

unfoldable pub cd_found : Option ℕ → Cmd ℤ
unfolding complain
cd_found none = complain (codes "Error: Directory not found\n")
cd_found (some i) = do
  e ← read_entry i
  if not (e.kind == type_dir) then complain (codes "Error: Not a directory\n") else enter i

-- A null `path` is the empty text: both lead to the root.
unfoldable pub cd : Text → Cmd ℤ
unfolding cd_found find_file
cd [] s = enter s.root s
cd (c ∷ path) s = and_then (find_file (c ∷ path) s) cd_found
