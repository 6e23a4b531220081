-- ===== src/Filesystem/Tree.antt =====
-- The directory tree that the table of entries stands for.
use pine_os.Base.{
  ℕ, ◌≤◌, ◌<◌, ◌≡◌, ◌==◌, ◌||◌, Bool, true, false, Option, none, some, List, [], ◌∷◌, arith, length,
}
use pine_os.Machine.{Entry, State}
use pine_os.Filesystem.Paths.{max_entries, type_dir}

-- From `c` the `next` pointers lead through the entries `ks` to null.
abbrev pub Chain : (ℕ → Entry) → Option ℕ → List ℕ → Type 0
Chain es c [] = c ≡ none
Chain es c (k ∷ ks) = (c ≡ some k) × Chain es (es k).next ks

abbrev pub has : ℕ → List ℕ → Bool
has a [] = false
has a (k ∷ ks) = (k == a) || has a ks

abbrev pub Distinct : List ℕ → Type 0
Distinct [] = Unit
Distinct (k ∷ ks) = (has k ks ≡ false) × Distinct ks

-- What an entry that is a child of `i` satisfies.
pub record IsChild (s : State) (i k : ℕ) : Type 0 where
  pub bound : k < s.next_entry
  pub up : (s.entries k).parent ≡ some i
  pub live : (s.entries k).used ≡ true
  pub below_dir : (s.entries i).kind ≡ type_dir

-- `kids i` are the children of the entry `i`, in order.
pub record IsTree (s : State) (kids : ℕ → List ℕ) : Type 0 where
  pub room : s.next_entry ≤ max_entries
  pub root_bound : s.root < s.next_entry
  pub root_dir : (s.entries s.root).kind ≡ type_dir
  pub root_top : (s.entries s.root).parent ≡ none
  pub current_bound : s.current_dir < s.next_entry
  pub current_is_dir : (s.entries s.current_dir).kind ≡ type_dir
  pub chain : (i : ℕ) → i < s.next_entry → Chain s.entries (s.entries i).children (kids i)
  pub child : (i k : ℕ) → i < s.next_entry → has k (kids i) ≡ true → IsChild s i k
  pub distinct : (i : ℕ) → i < s.next_entry → Distinct (kids i)
  pub short : (i : ℕ) → i < s.next_entry → length (kids i) ≤ s.next_entry
  pub parent_bound : (i p : ℕ) → i < s.next_entry → (s.entries i).parent ≡ some p → p < s.next_entry

pub Chain-frame :
    (es es' : ℕ → Entry) (ks : List ℕ) (c : Option ℕ)
    → ((k : ℕ) → has k ks ≡ true → (es' k).next ≡ (es k).next)
    → Chain es c ks
    → Chain es' c ks
Chain-frame es es' [] c same h = h
Chain-frame es es' (k ∷ ks) c same h = (
  h.0,
  rw (same k (ground arith)) (Chain-frame es es' ks (es k).next (λ a i. same a (ground arith)) h.1),
)
