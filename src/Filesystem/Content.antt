-- ===== src/Filesystem/Content.antt =====
-- What is written to a file is read back, and nothing outside its buffer changes.
use pine_os.Base.{
  ℕ, zero, suc, ◌+◌, ◌-◌, ◌≤◌, ◌<◌, ◌≡◌, ◌≢◌, refl, ap, ◌∙◌, ◌⊎◌, inl, inr, some, [], ◌∷◌, arith,
  length, take, length-take, leb, Bool-cases, dec_lt, if◌then◌else◌, pos,
}
use pine_os.CString.{Text, strlen}
use pine_os.Ram.{
  Ram, poke, put_bytes, strcpy, text_at, NoNul, put_bytes-strcpy, text_at-strcpy, strcpy-below,
  strcpy-above,
}
use pine_os.Machine.{Entry, State, ok, and_then, read_entry, set_entry}
use pine_os.Filesystem.Paths.{max_file_size, type_file, find_file}
use pine_os.Filesystem.Files.{kept, store, write_found, write_file, read_found, read_file}
use pine_os.Filesystem.Same.{SameTree, find_file-SameTree}

strlen-length : (t : Text) → strlen t ≡ length t
unfolding strlen
strlen-length [] = refl
strlen-length (c ∷ t) = ap suc (strlen-length t)

length-kept : (t : Text) → length (kept t) < max_file_size
unfolding kept strlen
length-kept t = elim (Bool-cases (leb max_file_size (strlen t))) [
  | inl long ↦ rw long (omega (arith, length-take 4095 t))
  | inr short ↦
      let lt : strlen t < max_file_size = ground arith in
      rw short (omega (arith, length-take (strlen t) t, strlen-length t))
]

NoNul-take : (n : ℕ) (t : Text) → NoNul t → NoNul (take n t)
NoNul-take zero t h = tt
NoNul-take (suc n) [] h = tt
NoNul-take (suc n) (c ∷ t) h = (h.0, NoNul-take n t h.1)

NoNul-kept : (t : Text) → NoNul t → NoNul (kept t)
unfolding kept
NoNul-kept t h =
    NoNul-take (if leb max_file_size (strlen t) then max_file_size - 1 else strlen t) t h

-- the state behind the copy
unfoldable pub written : ℕ → Text → State → State
unfolding kept
written i content s = record s {
  ram =
      poke (put_bytes s.ram (s.entries i).content (kept content))
        ((s.entries i).content + strlen (kept content)) 0;
  entries = set_entry s.entries i (record (s.entries i) { size = strlen (kept content) });
}

pub store-written :
    (i : ℕ) (content : Text) (s : State)
    → (s.entries i).kind ≡ type_file
    → (s.entries i).content ≢ 0
    → store (some i) content s ≡ ok (pos 0) (written i content s)
unfolding store written read_entry
store-written i content s k nz = ground arith

pub written-SameTree : (i : ℕ) (content : Text) (s : State) → SameTree s (written i content s)
unfolding written set_entry
written-SameTree i content s = record {
  paths = λ j. ground arith;
  same_root = refl;
  same_current = refl;
}

pub written-ram :
    (i : ℕ) (content : Text) (s : State)
    → (written i content s).ram ≡ strcpy s.ram (s.entries i).content (kept content)
unfolding written
written-ram i content s =
    let p = (s.entries i).content in
    let t = kept content in
    ap (λ (n : ℕ). poke (put_bytes s.ram p t) (p + n) 0) (strlen-length t)
    ∙ put_bytes-strcpy s.ram p t

pub written-entry :
    (i : ℕ) (content : Text) (s : State)
    → (written i content s).entries i ≡ record (s.entries i) { size = strlen (kept content) }
unfolding written set_entry
written-entry i content s = ground arith

read_found-file :
    (i : ℕ) (s : State)
    → (s.entries i).kind ≡ type_file
    → read_found (some i) s ≡ ok (s.entries i).content s
unfolding read_found read_entry
read_found-file i s k = ground arith

-- A write to an existing file with a buffer returns 0; after it the file is found under the same
-- path, `read_file` returns the same buffer, the C string in the buffer is the content cut to 4095
-- bytes, the entry's size is its length, and no byte outside the 4096 bytes of the buffer changes.
pub write_file-read_file :
    (s : State) (name content : Text) (i : ℕ)
    → find_file name s ≡ ok (some i) s
    → (s.entries i).kind ≡ type_file
    → (s.entries i).content ≢ 0
    → NoNul content
    → (s' : State) × (write_file name content s ≡ ok (pos 0) s')
      × (read_file name s' ≡ ok (s.entries i).content s')
      × (text_at max_file_size s'.ram (s.entries i).content ≡ some (kept content))
      × ((s'.entries i).size ≡ length (kept content))
      × ((a : ℕ)
          → (((s.entries i).content ≤ a) × (a < (s.entries i).content + max_file_size))
            ⊎ (s'.ram a ≡ s.ram a))
unfolding write_file read_file
write_file-read_file s name content i e k nz h =
    let s' = written i content s in
    let p = (s.entries i).content in
    let t = kept content in
    let at = written-entry i content s in
    let short = length-kept content in
    (
      s',
      ap (λ r. and_then r (write_found name content)) e ∙ store-written i content s k nz,
      ap (λ r. and_then r read_found)
            (find_file-SameTree s s' (some i) (written-SameTree i content s) name e)
          ∙ read_found-file i s' (ap (λ (x : Entry). x.kind) at ∙ k)
          ∙ ap (λ (x : Entry). ok x.content s') at,
      ap (λ (m : Ram). text_at max_file_size m p) (written-ram i content s)
          ∙ text_at-strcpy max_file_size s.ram p t (NoNul-kept content h) short,
      ap (λ (x : Entry). x.size) at ∙ strlen-length t,
      λ a. elim (dec_lt a p) [
        | yes lt ↦
            inr (ap (λ (m : Ram). m a) (written-ram i content s) ∙ strcpy-below s.ram p t a lt)
        | no ge ↦ elim (dec_lt a (p + max_file_size)) [
          | yes lt ↦ inl (omega arith, lt)
          | no far ↦ inr (
              ap (λ (m : Ram). m a) (written-ram i content s)
              ∙ strcpy-above s.ram p t a (omega arith))
        ]
      ],
    )
