-- ===== src/Paging/Clones/Table.antt =====
-- The loop of `clone_table`, and the table that it returns.
use loris.Base.{ℕ, zero, suc, ◌+◌, ◌*◌, ◌≤◌, ◌<◌, ◌≡◌, Memory, ok, ◌==◌, if◌then◌else◌}
use loris.Frames.{Page, Frames}
use loris.Frames.Bitmap.{IsBitmap}
use loris.Paging.{Platform, Machine, load_page, pages, clone_entries}
use loris.Paging.Entries.{IsPage, blank}
use loris.Paging.Clones.Extend.{HasClones}
use loris.Paging.Tables.{Apart}

-- How many of the entries from `i` on own a frame.
unfoldable pub owned : (page : ℕ → Page) (left i : ℕ) → ℕ
owned page zero i = 0
owned page (suc left) i =
    let rest = owned page left (i + 1) in if (page i).frame == 0 then rest else suc rest

module _ {S : Type 0} (platform : Platform S) (table src : ℕ) (page : ℕ → Page) where
  -- The copies of the contents of frames that the loop makes from `i` on.
  unfoldable pub copies : (left i : ℕ) (frame : ℕ → ℕ) → S → S
  copies zero i frame a = a
  copies (suc left) i frame a = copies left (i + 1) frame (
      if (page i).frame == 0
      then a
      else platform.copy_page_physical ((page i).frame * 0x1000) (frame i * 0x1000) a)

  module _ (legal : (j : ℕ) → IsPage (page j)) (apart : Apart src 4096 table 4096) where
    module _ (b : Machine S) where
      abbrev at : Memory → Frames → S → Machine S
      at m s a = record b { memory = m; frames = s; platform_state = a }

      abbrev HasSource : Memory → Type 0
      HasSource m = (j : ℕ) → j < 1024 → load_page m (pages src j) ≡ page j

      abbrev IsBlank : (i : ℕ) → Memory → Type 0
      IsBlank i m = (j : ℕ) → i ≤ j → j < 1024 → load_page m (pages table j) ≡ blank

      -- What the loop from `i` on leaves behind.
      abbrev Result : (left i : ℕ) → Memory → Frames → S → Type 0
      Result left i m s a =
          (frame : ℕ → ℕ) × (m' : Memory) × (s' : Frames) × (clone_entries platform left i table src
              (at m s a)
            ≡ ok (at m' s' (copies left i frame a)))
          × HasClones table i page frame m s m' s'
          × IsBitmap s'

-- The entries of a table in memory.
abbrev pub entry_of : Memory → (table : ℕ) → ℕ → Page
entry_of m table j = load_page m (pages table j)
