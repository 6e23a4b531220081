-- ===== src/Shell/Software.antt =====
-- The commands of `execute_command` (kernel/kernel.c) for storage devices and user programs.
use pine_os.Base.{
  ℕ, zero, suc, ◌+◌, ◌%◌, ◌||◌, Option, none, some, [], ◌∷◌, ◌++◌, ◌==◌, if◌then◌else◌, pos,
}
use pine_os.CString.{Text}
use pine_os.Machine.{codes}
use pine_os.Filesystem.Paths.{same_text}
use pine_os.Storage.{Device, Store}
use pine_os.Storage.Devices.{storage_get_device, storage_get_device_count}
use pine_os.User.{user_list_programs, user_remove_program}
use pine_os.User.Running.{user_run_program}
use pine_os.User.Compile.{Session, users_of, with_users, tell, on_programs, user_load_from_file}
use pine_os.Shell.{starts}
use pine_os.Shell.Network.{arguments}

abbrev pub type_text : ℕ → Text
type_text kind =
    if kind == 3
    then codes "USB"
    else if kind == 2
    then codes "HDD"
    else if kind == 1
    then codes "Floppy"
    else codes "Unknown"

abbrev pub device_text : ℕ → Option Device → Text
device_text i none = []
device_text i (some d) =
    codes "  "
    ++ (((b'0' + i) % 256)
        ∷ (codes ": " ++ (d.name ++ (codes " (" ++ (type_text d.kind ++ codes ")\n")))))

-- a disk or a USB device, or what the rest gives
abbrev pub if_storage : Option Device → Option Device → Option Device
if_storage none rest = rest
if_storage (some d) rest = if (d.kind == 2) || (d.kind == 3) then some d else rest

module _ {W : Type 0} where
  -- the devices from the one numbered `i`, with the rounds left
  unfoldable pub device_texts : (left i : ℕ) → Store W → Text
  device_texts zero i s = []
  device_texts (suc left) i s =
      device_text i (storage_get_device (pos i) s) ++ device_texts left (i + 1) s

  unfoldable pub list_devices : Store W → Store W
  list_devices s =
      let n = storage_get_device_count s in
      record s {
        console =
            s.console
            ++ (codes "Storage devices:\n"
                ++ (if n == 0 then codes "  No storage devices found\n" else device_texts n 0 s));
      }

  -- The first disk or USB device, which `save`, `load` and `format` use.
  unfoldable pub first_storage : (left i : ℕ) → Store W → Option Device
  first_storage zero i s = none
  first_storage (suc left) i s =
      if_storage (storage_get_device (pos i) s) (first_storage left (i + 1) s)

  abbrev pub storage_device : Store W → Option Device
  storage_device s = first_storage (storage_get_device_count s) 0 s

abbrev pub done : {A : Type 0} → Option (A × Session) → Option Session
done none = none
done (some (r, s)) = some s

abbrev pub run : Text → Session → Option Session
run [] s = some (tell (codes "Usage: run <program_name>\n") s)
run (c ∷ name) s = done (on_programs (user_run_program (c ∷ name)) s)

abbrev pub unload : Text → Session → Option Session
unload [] s = some (tell (codes "Usage: unload <program_name>\n") s)
unload (c ∷ name) s = done (on_programs (user_remove_program (c ∷ name)) s)

module _ (fuel compiled : ℕ) where
  abbrev pub compile : Text → Session → Option Session
  compile [] s = some (tell (codes "Usage: compile <filename.c>\n") s)
  compile (c ∷ filename) s = done (user_load_from_file fuel compiled (c ∷ filename) s)

  -- The branches from `programs` to `unload`; `rest` is what the branches behind them do.
  unfoldable pub program_command :
      (rest : Text → Session → Option Session) → Text → Session → Option Session
  program_command rest c s =
      if same_text c (codes "programs")
      then some (with_users (user_list_programs (users_of s)) s)
      else if starts c (codes "run")
      then run (arguments 3 c) s
      else if starts c (codes "compile")
      then compile (arguments 7 c) s
      else if starts c (codes "unload")
      then unload (arguments 6 c) s
      else rest c s
