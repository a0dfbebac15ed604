-- ===== src/Paging/Entries.antt =====
-- Page table entries in memory, and memory that is cleared.
use mathlib.Core.Path.{subst}
use loris.Base.{
  ℕ, ◌+◌, ◌-◌, ◌*◌, ◌/◌, ◌%◌, ◌^◌, ◌≤◌, ◌<◌, ◌≡◌, refl, ap, ◌∙◌, ◌⊎◌, arith, Memory, read32,
  write32, write32_outside, read32_same, read32-write32_self,
}
use loris.Strings.{memset}
use loris.Strings.Fill.{memset_lem}
use loris.Frames.{Page}
use loris.Paging.{load_page, store_page}

-- Each bit field fits its width.
pub record IsPage (p : Page) : Type 0 where
  pub present_fits : p.present < 2
  pub read_write_fits : p.read_write < 2
  pub user_fits : p.user < 2
  pub accessed_fits : p.accessed < 2
  pub dirty_fits : p.dirty < 2
  pub unused_fits : p.unused < 128
  pub frame_fits : p.frame < 2 ^ 20

abbrev pub blank : Page
blank = record {
  present = 0;
  read_write = 0;
  user = 0;
  accessed = 0;
  dirty = 0;
  unused = 0;
  frame = 0;
}

-- The fields of a word.
abbrev page_of : ℕ → Page
page_of word = record {
  present = word % 2;
  read_write = word / 2 % 2;
  user = word / 4 % 2;
  accessed = word / 8 % 2;
  dirty = word / 16 % 2;
  unused = word / 32 % 128;
  frame = word / 4096 % 2 ^ 20;
}

load_page-page_of : (m : Memory) (a w : ℕ) → read32 m a ≡ w → load_page m a ≡ page_of w
unfolding load_page
load_page-page_of m a w e = ap page_of e

abbrev word_of : Page → ℕ
word_of p =
    p.present
    + p.read_write * 2
    + p.user * 4
    + p.accessed * 8
    + p.dirty * 16
    + p.unused * 32
    + p.frame * 4096

page_of-word_of : (p : Page) → IsPage p → page_of (word_of p) ≡ p
page_of-word_of p i =
    let w = word_of p in
    let ha = i.present_fits in
    let hb = i.read_write_fits in
    let hc = i.user_fits in
    let hd = i.accessed_fits in
    let he = i.dirty_fits in
    let hu = i.unused_fits in
    let hf = i.frame_fits in
    let e₁ : w % 2 ≡ p.present = omega arith in
    let e₂ : w / 2 % 2 ≡ p.read_write = omega arith in
    let e₃ : w / 4 % 2 ≡ p.user = omega arith in
    let e₄ : w / 8 % 2 ≡ p.accessed = omega arith in
    let e₅ : w / 16 % 2 ≡ p.dirty = omega arith in
    let e₆ : w / 32 % 128 ≡ p.unused = omega arith in
    let e₇ : w / 4096 % 2 ^ 20 ≡ p.frame = omega arith in rw (e₁, e₂, e₃, e₄, e₅, e₆, e₇) refl

pub load_page-store_page :
    (a : ℕ) (p : Page) (m : Memory) → IsPage p → load_page (store_page a p m) a ≡ p
unfolding store_page
load_page-store_page a p m i =
    load_page-page_of (write32 m a (word_of p)) a (word_of p) (
      read32-write32_self m a (word_of p) (
        omega (
          arith, i.present_fits, i.read_write_fits, i.user_fits, i.accessed_fits, i.dirty_fits,
          i.unused_fits, i.frame_fits,
        )))
    ∙ page_of-word_of p i

pub store_page_outside :
    (a : ℕ) (p : Page) (m : Memory) (x : ℕ) → (x < a) ⊎ (a + 4 ≤ x) → store_page a p m x ≡ m x
unfolding store_page
store_page_outside a p m x out = write32_outside m a (word_of p) x out

pub load_page_same :
    (m m' : Memory) (a : ℕ)
    → ((x : ℕ) → a ≤ x → x < a + 4 → m' x ≡ m x)
    → load_page m' a ≡ load_page m a
unfolding load_page
load_page_same m m' a same = ap page_of (read32_same m m' a same)

pub load_page-IsPage : (m : Memory) (a : ℕ) → IsPage (load_page m a)
unfolding load_page
load_page-IsPage m a = record {
  present_fits = omega arith;
  read_write_fits = omega arith;
  user_fits = omega arith;
  accessed_fits = omega arith;
  dirty_fits = omega arith;
  unused_fits = omega arith;
  frame_fits = omega arith;
}

pub memset-zero :
    (buf size x : ℕ) (m : Memory) → buf ≤ x → x < buf + size → memset buf 0 size m x ≡ 0
memset-zero buf size x m h h' =
    let at : buf + (x - buf) ≡ x = omega arith in
    subst (λ (y : ℕ). memset buf 0 size m y ≡ 0) at
      ((memset_lem buf 0 size m).0 (x - buf) (omega arith))

-- A cleared word and a cleared entry.
pub read32-memset :
    (buf size a : ℕ) (m : Memory)
    → buf ≤ a
    → a + 4 ≤ buf + size
    → read32 (memset buf 0 size m) a ≡ 0
unfolding read32
read32-memset buf size a m p q =
    let byte : (x : ℕ) → buf ≤ x → x < buf + size → memset buf 0 size m x ≡ 0 =
      λ x h h'. memset-zero buf size x m h h' in
    rw
      (
        byte a (omega arith) (omega arith),
        byte (a + 1) (omega arith) (omega arith),
        byte (a + 2) (omega arith) (omega arith),
        byte (a + 3) (omega arith) (omega arith),
      )
      refl

pub load_page-memset :
    (buf size a : ℕ) (m : Memory)
    → buf ≤ a
    → a + 4 ≤ buf + size
    → load_page (memset buf 0 size m) a ≡ blank
load_page-memset buf size a m p q =
    load_page-page_of (memset buf 0 size m) a 0 (read32-memset buf size a m p q)

pub read32-memset_outside :
    (buf size a : ℕ) (m : Memory)
    → (a + 4 ≤ buf) ⊎ (buf + size ≤ a)
    → read32 (memset buf 0 size m) a ≡ read32 m a
read32-memset_outside buf size a m out =
    read32_same m (memset buf 0 size m) a (λ x p q. (memset_lem buf 0 size m).1 x (omega arith))
