-- ===== src/FileSystem/Mounting.antt =====
-- The loop of `initialise_initrd` over the headers of the files.
use native.Mathlib.Decide.{ℕ_discrete}
use mathlib.Core.Path.{subst}
use loris.Base.{
  ℕ, zero, suc, ◌+◌, ◌-◌, ◌≤◌, ◌<◌, ◌≡◌, refl, sym, ap, ◌∙◌, ◌≢◌, ◌⊎◌, arith, List, [], ◌∷◌, length,
  Memory, write32, write32_outside, read32_same, read32-write32_self, read32-write32_ne, ok, load,
  add32,
}
use loris.FileSystem.Text.{string_from, string_from_same}
use loris.FileSystem.Initrd.{
  InitrdNode, header_at, name_of, offset_of, length_of, file_node, load_files,
}

-- The nodes and the memory behind the loop over the headers `lo` to `hi`.
pub record Loaded (location headers lo hi : ℕ) (old : ℕ → InitrdNode) (name : ℕ → List ℕ)
    (m : Memory) (nodes : List InitrdNode) (m' : Memory) : Type 0 where
  pub count : lo + length nodes ≡ hi
  pub node :
      (j : ℕ)
      → lo ≤ j
      → j < hi
      → load nodes (j - lo) ≡ ok (file_node (name j) (length_of m (header_at headers j)) j (old j))
  pub offset :
      (j : ℕ)
      → lo ≤ j
      → j < hi
      → offset_of m' (header_at headers j) ≡ add32 (offset_of m (header_at headers j)) location
  pub size :
      (j : ℕ)
      → lo ≤ j
      → j < hi
      → length_of m' (header_at headers j) ≡ length_of m (header_at headers j)
  pub kept : (x : ℕ) → (x < header_at headers lo) ⊎ (header_at headers hi ≤ x) → m' x ≡ m x

module _ (location headers : ℕ) (old : ℕ → InitrdNode) (name : ℕ → List ℕ) where
  -- The memory after the offset of header `i` was edited.
  abbrev edited : ℕ → Memory → Memory
  edited i m =
      write32 m (header_at headers i + 68) (add32 (offset_of m (header_at headers i)) location)

  edited_outside :
      (i x : ℕ) (m : Memory)
      → (x < header_at headers i + 68) ⊎ (header_at headers i + 72 ≤ x)
      → edited i m x ≡ m x
  edited_outside i x m out =
      write32_outside m (header_at headers i + 68)
        (add32 (offset_of m (header_at headers i)) location) x (omega arith)

  edited_length :
      (i j : ℕ) (m : Memory)
      → length_of (edited i m) (header_at headers j) ≡ length_of m (header_at headers j)
  edited_length i j m =
      read32-write32_ne m (header_at headers i + 68) (header_at headers j + 72)
        (add32 (offset_of m (header_at headers i)) location) (omega arith)

  edited_offset :
      (i j : ℕ) (m : Memory)
      → i ≢ j
      → offset_of (edited i m) (header_at headers j) ≡ offset_of m (header_at headers j)
  edited_offset i j m ne =
      read32-write32_ne m (header_at headers i + 68) (header_at headers j + 68)
        (add32 (offset_of m (header_at headers i)) location) (omega arith)

  edited_name :
      (i j : ℕ) (m : Memory) (s : List ℕ)
      → i ≤ j
      → string_from 64 m (name_of (header_at headers j)) ≡ ok s
      → string_from 64 (edited i m) (name_of (header_at headers j)) ≡ ok s
  edited_name i j m s le e =
      string_from_same 64 64 m (edited i m) (name_of (header_at headers j)) s (omega arith)
        (λ x p q. edited_outside i x m (omega arith)) e

  Loaded-step :
      (i hi : ℕ) (m m' : Memory) (nodes : List InitrdNode)
      → i < hi
      → Loaded location headers (i + 1) hi old name (edited i m) nodes m'
      → Loaded location headers i hi old name m
          (file_node (name i) (length_of (edited i m) (header_at headers i)) i (old i) ∷ nodes)
          m'
  Loaded-step i hi m m' nodes lt l = record {
    count = omega (arith, l.count);
    node = each_node;
    offset = each_offset;
    size = each_size;
    kept = λ x out. l.kept x (omega arith) ∙ edited_outside i x m (omega arith);
  }
    where
      each_node :
          (j : ℕ)
          → i ≤ j
          → j < hi
          → load
              (file_node (name i) (length_of (edited i m) (header_at headers i)) i (old i) ∷ nodes)
              (j - i)
            ≡ ok (file_node (name j) (length_of m (header_at headers j)) j (old j))
      each_node j p q = elim (ℕ_discrete j i) [
        | yes e ↦
            let start : j - i ≡ 0 = omega arith in
            rw start (
              ap (λ (k : ℕ). ok (file_node (name i) k i (old i))) (edited_length i i m)
              ∙ ap
                  (λ (k : ℕ). ok (file_node (name k) (length_of m (header_at headers k)) k (old k)))
                  (sym e))
        | no ne ↦
            let later : j - i ≡ suc (j - (i + 1)) = omega arith in
            rw later (
              l.node j (omega arith) q
              ∙ ap (λ (k : ℕ). ok (file_node (name j) k j (old j))) (edited_length i j m))
      ]

      each_size :
          (j : ℕ)
          → i ≤ j
          → j < hi
          → length_of m' (header_at headers j) ≡ length_of m (header_at headers j)
      each_size j p q = elim (ℕ_discrete j i) [
        | yes e ↦
            read32_same (edited i m) m' (header_at headers j + 72)
              (λ x h h'. l.kept x (omega arith))
            ∙ edited_length i j m
        | no ne ↦ l.size j (omega arith) q ∙ edited_length i j m
      ]

      each_offset :
          (j : ℕ)
          → i ≤ j
          → j < hi
          → offset_of m' (header_at headers j) ≡ add32 (offset_of m (header_at headers j)) location
      each_offset j p q = elim (ℕ_discrete j i) [
        | yes e ↦
            subst
              (λ (k : ℕ).
                offset_of m' (header_at headers k)
                ≡ add32 (offset_of m (header_at headers k)) location)
              (sym e)
              (read32_same (edited i m) m' (header_at headers i + 68)
                  (λ x h h'. l.kept x (omega arith))
                ∙ read32-write32_self m (header_at headers i + 68)
                    (add32 (offset_of m (header_at headers i)) location) (omega arith))
        | no ne ↦
            l.offset j (omega arith) q
            ∙ ap (λ (k : ℕ). add32 k location) (edited_offset i j m (λ h. ne (sym h)))
      ]

  pub load_files-Loaded :
      (left i hi : ℕ) (m : Memory)
      → i + left ≡ hi
      → ((j : ℕ) → i ≤ j → j < hi → string_from 64 m (name_of (header_at headers j)) ≡ ok (name j))
      → (nodes : List InitrdNode) × (m' : Memory) × (load_files location headers left i old m
          ≡ ok (nodes, m'))
        × Loaded location headers i hi old name m nodes m'
  unfolding load_files
  load_files-Loaded zero i hi m e named = (
    [],
    m,
    refl,
    record {
      count = omega arith;
      node = λ j p q. absurd (omega arith);
      offset = λ j p q. absurd (omega arith);
      size = λ j p q. absurd (omega arith);
      kept = λ x out. refl;
    },
  )
  load_files-Loaded (suc left) i hi m e named =
      let read : string_from 128 (edited i m) (name_of (header_at headers i)) ≡ ok (name i) =
        string_from_same 64 128 (edited i m) (edited i m) (name_of (header_at headers i)) (name i)
          (omega arith) (λ x p q. refl)
          (edited_name i i m (name i) (omega arith) (named i (omega arith) (omega arith))) in
      let (nodes, m', run, l) =
        load_files-Loaded left (i + 1) hi (edited i m) (omega arith)
          (λ j p q. edited_name i j m (name j) (omega arith) (named j (omega arith) q)) in
      (
        file_node (name i) (length_of (edited i m) (header_at headers i)) i (old i) ∷ nodes,
        m',
        rw (read, run),
        Loaded-step i hi m m' nodes (omega arith) l,
      )
