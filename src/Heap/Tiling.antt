-- ===== src/Heap/Tiling.antt =====
-- The heap from its start to its end as one header behind the other.
use mathlib.Core.Path.{subst}
use loris.Base.{
  ℕ, suc, ◌+◌, ◌-◌, ◌≤◌, ◌<◌, ◌≡◌, refl, sym, ap, ◌∙◌, ◌⊎◌, inl, inr, arith, List, [], ◌∷◌, ◌++◌,
  Memory, ok, false,
}
use loris.Heap.Layout.{size_of}
use loris.Heap.Resize.{Pager, World}
use loris.Heap.Alloc.{alloc}
use loris.Heap.Blocks.{IsHeader, IsHeader-same}
use loris.Heap.BestFit.{hole_at}
use loris.Heap.Fit.{FoundHole, alloc_split}

-- A block, with the flag 0, or a hole, with the flag 1, and its size.
pub record Part : Type 0 where
  pub flag : ℕ
  pub bytes : ℕ

-- From `a` to `b` the memory is one part behind the other, each with its header.
unfoldable pub IsTiled : Memory → ℕ → List Part → ℕ → Type 0
IsTiled m a [] b = a ≡ b
IsTiled m a (p ∷ ps) b = (20 ≤ p.bytes) × IsHeader m a p.flag p.bytes × IsTiled m (a + p.bytes) ps b

-- The address behind the parts.
unfoldable pub behind : ℕ → List Part → ℕ
behind a [] = a
behind a (p ∷ ps) = behind (a + p.bytes) ps

IsTiled-le : (m : Memory) (a b : ℕ) (ps : List Part) → IsTiled m a ps b → a ≤ b
unfolding IsTiled
IsTiled-le m a b [] t = omega arith
IsTiled-le m a b (p ∷ ps) (large, header, t) = omega (arith, IsTiled-le m (a + p.bytes) b ps t)

pub IsTiled-split :
    (m : Memory) (a b : ℕ) (ps qs : List Part)
    → IsTiled m a (ps ++ qs) b
    → IsTiled m a ps (behind a ps) × IsTiled m (behind a ps) qs b
unfolding IsTiled behind
IsTiled-split m a b [] qs t = (refl, t)
IsTiled-split m a b (p ∷ ps) qs (large, header, t) =
    let (front, back) = IsTiled-split m (a + p.bytes) b ps qs t in ((large, header, front), back)

IsTiled-append :
    (m : Memory) (a b c : ℕ) (ps qs : List Part)
    → IsTiled m a ps b
    → IsTiled m b qs c
    → IsTiled m a (ps ++ qs) c
unfolding IsTiled
IsTiled-append m a b c [] qs e t = subst (λ (x : ℕ). IsTiled m x qs c) (sym e) t
IsTiled-append m a b c (p ∷ ps) qs (large, header, front) t =
    (large, header, IsTiled-append m (a + p.bytes) b c ps qs front t)

IsTiled-same :
    (m m' : Memory) (a b : ℕ) (ps : List Part)
    → ((x : ℕ) → a ≤ x → x < b → m' x ≡ m x)
    → IsTiled m a ps b
    → IsTiled m' a ps b
unfolding IsTiled
IsTiled-same m m' a b [] same e = e
IsTiled-same m m' a b (p ∷ ps) same (large, header, t) =
    let inside = IsTiled-le m (a + p.bytes) b ps t in
    (
      large,
      IsHeader-same m m' a p.flag p.bytes (λ x h h'. same x h (omega arith)) header,
      IsTiled-same m m' (a + p.bytes) b ps (λ x h h'. same x (omega arith) h') t,
    )

-- The parts between `c` and `d` are replaced, and no byte outside changes.
pub IsTiled-replace :
    (m m' : Memory) (a b c d : ℕ) (ps new qs : List Part)
    → IsTiled m a ps c
    → IsTiled m d qs b
    → IsTiled m' c new d
    → ((x : ℕ) → (x < c) ⊎ (d ≤ x) → m' x ≡ m x)
    → IsTiled m' a (ps ++ (new ++ qs)) b
IsTiled-replace m m' a b c d ps new qs front back between same =
    IsTiled-append m' a c b ps (new ++ qs)
      (IsTiled-same m m' a c ps (λ x h h'. same x (inl h')) front)
      (IsTiled-append m' c d b new qs between
        (IsTiled-same m m' d b qs (λ x h h'. same x (inr h)) back))

abbrev pub block : ℕ → Part
block n = record { flag = 0; bytes = n }

abbrev pub hole : ℕ → Part
hole n = record { flag = 1; bytes = n }

-- From an address `a` to its end the heap is a row of parts. Where `FindSmallestHole` finds a hole
-- with 20 bytes or more to spare behind the parts `ps`, which ends below 2 ^ 32, and the
-- well-formed index has a free slot, `Alloc` without alignment returns, and up to the same end the
-- heap is a row of parts again: the wanted block and a hole of the rest stand for the hole, the
-- others are as before.
pub alloc_split-IsTiled :
    (pager : Pager) (w : World pager) (size r fuel n a : ℕ) (ps qs : List Part)
    → FoundHole pager w size r
    → hole_at w.heap.index r ≡ behind a ps
    → IsTiled w.memory a (ps ++ hole n ∷ qs) w.heap.end_address
    → size + 40 ≤ n
    → (w' : World pager) × (alloc pager (suc fuel) size false w ≡ ok (behind a ps + 12, w'))
      × IsTiled w'.memory a
          (ps ++ block (size + 20) ∷ hole (n - (size + 20)) ∷ qs)
          w'.heap.end_address
unfolding IsTiled
alloc_split-IsTiled pager w size r fuel n a ps qs there at tiled large =
    let m = w.memory in
    let b = w.heap.end_address in
    let pos = hole_at w.heap.index r in
    let (front, back) = IsTiled-split m a b ps (hole n ∷ qs) tiled in
    let (least, header, others) = subst (λ (c : ℕ). IsTiled m c (hole n ∷ qs) b) (sym at) back in
    let inside = IsTiled-le m (pos + n) b qs others in
    let n_is : size_of m pos ≡ n = header.size_is in
    let (w', run, taken, rest, kept, wf, shown, count, most, end_is) =
      alloc_split pager w size r fuel there (omega arith) (omega arith) in
    let rest_header =
      subst (λ (k : ℕ). IsHeader w'.memory (pos + (size + 20)) 1 (k - (size + 20))) n_is
        rest.header in
    (
      w',
      run ∙ ap (λ (c : ℕ). ok (c + 12, w')) at,
      subst
          (λ (e : ℕ). IsTiled w'.memory a (ps ++ block (size + 20) ∷ hole (n - (size + 20)) ∷ qs) e)
          (sym end_is)
          (IsTiled-replace m w'.memory a b pos (pos + n) ps
            (block (size + 20) ∷ hole (n - (size + 20)) ∷ []) qs
            (subst (λ (c : ℕ). IsTiled m a ps c) (sym at) front) others
            (omega arith, taken.header, (omega arith, rest_header, omega arith))
            (λ x out. kept x (omega arith))),
    )
