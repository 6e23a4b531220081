-- ===== src/Shell/Dispatch.antt =====
-- What the dispatch of commands leads to.
use pine_os.Base.{ℕ, ℤ, ◌≡◌, ◌≤◌, ◌<◌, refl, ap, ◌∙◌, List, [], ◌∷◌, ◌++◌, arith}
use pine_os.CString.{Text, strcmp, strncmp, strlen}
use pine_os.Machine.{State, ok, Cmd, and_then, codes, puts, say, ◌>>◌}
use pine_os.Filesystem.Paths.{type_dir, same_text, start, max_path}
use pine_os.Filesystem.Making.{Made}
use pine_os.Filesystem.Files.{mkdir}
use pine_os.Filesystem.Removal.{rm}
use pine_os.Filesystem.Tree.{IsTree}
use pine_os.Filesystem.Mkdir.{Tree, printed-IsTree, mkdir-Made}
use pine_os.Shell.{starts, skip_spaces, ignore, file_command, dispatch, execute_command}

-- what the shell prints before it looks at a command
abbrev pub received : Text → Cmd (Unit {0})
received c = say "\n" >> (say "DEBUG: Received command: '" >> (puts c >> say "'\n"))

-- the state after that
abbrev pub after_received : Text → State → State
after_received c s = record s {
  console = (((s.console ++ codes "\n") ++ codes "DEBUG: Received command: '") ++ c) ++ codes "'\n";
}

strlen-skip_spaces : (t : Text) → strlen (skip_spaces t) ≤ strlen t
unfolding strlen skip_spaces
strlen-skip_spaces [] = omega arith
strlen-skip_spaces (c ∷ t) = ground (arith, strlen-skip_spaces t)

module _ (fuel : ℕ) (stack : ℕ → Text) (clear process_status : Cmd (Unit {0}))
    (others : Text → Cmd (Unit {0})) where
  dispatch-mkdir :
      (t : Text) (s : State)
      → dispatch fuel stack clear process_status others (codes "mkdir" ++ t) s
        ≡ ignore (mkdir (skip_spaces t)) s
  unfolding dispatch file_command codes same_text starts strcmp strncmp strlen
  dispatch-mkdir t s = refl

  dispatch-rmdir :
      (t : Text) (s : State)
      → dispatch fuel stack clear process_status others (codes "rmdir" ++ t) s
        ≡ ignore (rm (codes "dir" ++ t)) s
  unfolding dispatch file_command codes same_text starts strcmp strncmp strlen skip_spaces
  dispatch-rmdir t s = refl

  -- A line that begins with `rmdir` never removes a directory by that command: the shell removes the
  -- file whose name is the line without its first two letters, as for every line that begins with
  -- `rm`.
  execute_command-rmdir :
      (t : Text) (s : State)
      → execute_command fuel stack clear process_status others (codes "rmdir" ++ t) s
        ≡ ignore (rm (codes "dir" ++ t)) (after_received (codes "rmdir" ++ t) s)
  unfolding execute_command puts
  execute_command-rmdir t s = dispatch-rmdir t (after_received (codes "rmdir" ++ t) s)

  -- On a well-formed tree every line that begins with `mkdir` and goes on with at most 255 bytes is
  -- executed to its end: after the prompt's messages it does what `mkdir` does with the rest of the
  -- line behind its spaces. Either that fails and only prints a message, or there is one more entry,
  -- a directory with the first 31 bytes of that name, the first child of the root or of the current
  -- directory. The tree stays well formed.
  pub execute_command-mkdir :
      (t : Text) (s : State) (kids : ℕ → List ℕ)
      → IsTree s kids
      → strlen t < max_path
      → (s' : State) × (execute_command fuel stack clear process_status others
            (codes "mkdir" ++ t)
            s
          ≡ ok tt s')
        × (r : ℤ) × (mkdir (skip_spaces t) (after_received (codes "mkdir" ++ t) s) ≡ ok r s')
        × Made
            (after_received (codes "mkdir" ++ t) s)
            (start (skip_spaces t) (after_received (codes "mkdir" ++ t) s)).0
            (start (skip_spaces t) (after_received (codes "mkdir" ++ t) s)).1
            type_dir
            r
            s'
        × Tree s'
  unfolding execute_command puts
  execute_command-mkdir t s kids tree lt =
      let s0 = after_received (codes "mkdir" ++ t) s in
      let (r, s', e, made, tree') =
        mkdir-Made s0 kids (printed-IsTree s kids s0.console tree) (skip_spaces t)
          (omega (arith, strlen-skip_spaces t)) in
      (s', dispatch-mkdir t s0 ∙ ap (λ x. and_then x (λ r. ok tt)) e, r, e, made, tree')
