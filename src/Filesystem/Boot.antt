-- ===== src/Filesystem/Boot.antt =====
-- `filesystem_init` of kernel/filesystem.c.
use pine_os.Base.{[], ◌≡◌, refl, ℕ, Option, none, some}
use pine_os.CString.{
  strcmp, strlen, strtok, strtok_saved, skip_delims, take_token, cut_token, is_delim, strchr,
}
use pine_os.Memory.{memory_alloc, memory_init, best_fit, grant, claim_at, claim, find_block}
use pine_os.Machine.{
  State, ok, Cmd, fault, pure, ◌>>=◌, ◌>>◌, codes, update, read_entry, puts, set_entry, alloc,
}
use pine_os.Filesystem.Paths.{
  type_dir, create_file, fresh_entry, find_file, search, walk, find_child, same_text, start,
}
use pine_os.Filesystem.Files.{
  mkdir, write_file, make_dir, attach_dir, link, report, complain, write_found, store, touch,
  make_file, attach_file,
}

-- `fs.root = fs.current_dir = entry`; every use of a null root faults
abbrev pub set_root : Option ℕ → Cmd (Unit {0})
set_root none s = fault
set_root (some i) s = ok tt (record s { root = i; current_dir = i })

abbrev pub no_entries : Cmd (Unit {0})
no_entries s = ok tt (record s { next_entry = 0 })

unfoldable pub filesystem_init : Cmd (Unit {0})
filesystem_init = do
  no_entries
  root ← create_file (codes "/") type_dir
  set_root root
  mkdir (codes "bin")
  mkdir (codes "home")
  mkdir (codes "etc")
  mkdir (codes "tmp")
  write_file (codes "/etc/version") (codes "pineOS v1.0\n")
  write_file (codes "/etc/motd") (codes "Welcome to pineOS!\n")
  write_file (codes "/home/readme.txt") (codes "This is your home directory.\n")
  pure tt

abbrev blank : State
blank = record {
  entries = λ i. fresh_entry [] type_dir;
  next_entry = 0;
  root = 0;
  current_dir = 0;
  heap = memory_init;
  ram = λ a. 0;
  console = [];
}

-- At boot the writing of `/etc/version` reads through a null pointer: `touch` has made an entry
-- named `etc/version`, which the second search does not find.
boot_faults : filesystem_init blank ≡ fault
unfolding filesystem_init create_file mkdir write_file fresh_entry make_dir find_file search walk
    find_child same_text strcmp strlen strtok strtok_saved skip_delims take_token cut_token is_delim
    strchr start attach_dir link report complain update read_entry puts codes set_entry write_found
    store touch make_file attach_file alloc memory_alloc memory_init best_fit grant claim_at claim
    find_block
boot_faults = refl
