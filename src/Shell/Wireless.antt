-- ===== src/Shell/Wireless.antt =====
-- How the shell takes the line `wifi connect` apart.
use pine_os.Base.{
  ℕ, zero, suc, ◌+◌, ◌<◌, ◌≡◌, ◌≢◌, refl, ap, ◌∙◌, false, Option, some, [], ◌∷◌, ◌++◌, ◌==◌, take,
  length, arith,
}
use pine_os.CString.{Text, strlen, strcmp, strncmp}
use pine_os.Machine.{codes}
use pine_os.Filesystem.Paths.{same_text}
use pine_os.Pci.{Ports}
use pine_os.Netstack.Link.{Nic}
use pine_os.Shell.{starts, skip_spaces, split_space}
use pine_os.Wifi.{Station, wifi_connect}
use pine_os.Shell.Network.{done, wifi, network_command, first_word, connect_command}

-- no byte of the text is a space
abbrev pub Spaceless : Text → Type 0
Spaceless [] = Unit
Spaceless (c ∷ t) = (c ≢ b' ') × Spaceless t

split-Spaceless : (w t : Text) → Spaceless w → split_space (w ++ (b' ' ∷ t)) ≡ (w, some t)
unfolding split_space
split-Spaceless [] t h = refl
split-Spaceless (c ∷ w) t h =
    let n : (c == b' ') ≡ false = ground (arith, h.0) in rw (n, split-Spaceless w t h.1) refl

take-all : (n : ℕ) (w : Text) → length w < n + 1 → take n w ≡ w
take-all zero [] lt = refl
take-all (suc n) [] lt = refl
take-all zero (c ∷ w) lt = absurd (omega (arith, lt))
take-all (suc n) (c ∷ w) lt = ap (λ (t : Text). c ∷ t) (take-all n w (omega (arith, lt)))

skip-text : (c : ℕ) (t : Text) → c ≢ b' ' → skip_spaces (c ∷ t) ≡ c ∷ t
unfolding skip_spaces
skip-text c t ne = ground (arith, ne)

-- the line, and what follows its first two words
abbrev pub connect_line : (ssid password : Text) → Text
connect_line ssid password = codes "wifi connect " ++ (ssid ++ (b' ' ∷ password))

module _ {W Card : Type 0} (ports : Ports W) (nics : Text → Nic Card) where
  command-connect :
      (args : Text) (s : Station W Card)
      → network_command ports nics (codes "wifi connect " ++ args) s
        ≡ connect_command ports nics (first_word 32 (skip_spaces args)) s
  unfolding network_command wifi codes starts same_text strcmp strncmp strlen skip_spaces
  command-connect args s =
      let some_args : (suc (suc (suc (suc (suc (suc (suc (suc (strlen args)))))))) == 0) ≡ false =
        ground arith in
      rw some_args refl

  -- For a name without spaces that fits its buffer and a password that does not begin with a space,
  -- the line `wifi connect <name> <password>` calls `wifi_connect` with that name and that password,
  -- whose spaces and end are kept.
  pub network_command-connect :
      (c p : ℕ) (ssid password : Text) (s : Station W Card)
      → Spaceless (c ∷ ssid)
      → length ssid < 31
      → p ≢ b' '
      → network_command ports nics (connect_line (c ∷ ssid) (p ∷ password)) s
        ≡ done (wifi_connect nics (c ∷ ssid) (some (p ∷ password)) s)
  network_command-connect c p ssid password s h lt ne =
      let line = (c ∷ ssid) ++ (b' ' ∷ p ∷ password) in
      command-connect line s
      ∙ ap (λ (t : Text). connect_command ports nics (first_word 32 t) s)
          (skip-text c (ssid ++ (b' ' ∷ p ∷ password)) h.0)
      ∙ ap (λ (x : Text × Option Text). connect_command ports nics (take 31 x.0, x.1) s)
          (split-Spaceless (c ∷ ssid) (p ∷ password) h)
      ∙ ap (λ (t : Text). connect_command ports nics (c ∷ t, some (p ∷ password)) s)
          (take-all 30 ssid lt)
      ∙ ap (λ (t : Text). done (wifi_connect nics (c ∷ ssid) (some t) s)) (skip-text p password ne)
