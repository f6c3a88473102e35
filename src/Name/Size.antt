-- ===== src/Name/Size.antt =====
-- A bound on the bytes of a name: a pointer never takes more than the labels that it stands for.
use ddns.Prelude.{ℕ, ◌+◌, ◌*◌, ◌^◌, ◌%◌, ◌≤◌, ◌≡◌, arith, List, [], ◌∷◌, ◌++◌}
use ddns.Prelude.{length, length-append, All, Option-cases, inl, inr}
use Prim.Native.Nat.{bit_and, bit_or}
use ddns.Bytes.{be_bytes, length-be_bytes}
use ddns.Name.Defs.{Name, NameCompression, dot, join, name_eq, get_suffix_offset, suffixes_of}
use ddns.Name.Spells.{IsLabel}
use ddns.Name.Text.{display, IsName, strip_dot-join, split_dot-join, labels_of_lem, join-ne-root}
use ddns.Name.Pure.{labels_bytes, name_bytes}

abbrev pointer : ℕ → ℕ
pointer offset = bit_or (3 * 2 ^ 14) (bit_and offset 0x3fff)

head_size :
    (x : ℕ) (l bytes : List ℕ) → length (be_bytes 1 x ++ (l ++ bytes)) ≡ 1 + length l + length bytes
head_size x l bytes =
    omega
      (arith, length-append (be_bytes 1 x) (l ++ bytes), length-append l bytes, length-be_bytes 1 x)

end_size :
    (n : ℕ) (suffixes : List Name) (ctx : NameCompression)
    → length (labels_bytes n [] suffixes ctx).0 ≡ 1
unfolding labels_bytes
end_size n suffixes ctx = length-be_bytes 1 0

labels_bytes_size :
    (n : ℕ) (l : Name) (ls suffixes : List Name) (ctx : NameCompression)
    → length (labels_bytes n (l ∷ ls) suffixes ctx).0 ≤ length (join (l ∷ ls)) + 2
unfolding labels_bytes join
labels_bytes_size n l ls [] ctx = omega (arith, length-be_bytes 1 0)
labels_bytes_size n l [] (suffix ∷ suffixes) ctx =
    elim (Option-cases (get_suffix_offset ctx suffix)) [
      | inr (offset, old) ↦
          rw (labels_bytes, old) (omega (arith, length-be_bytes 2 (pointer offset)))
      | inl new ↦
          rw (labels_bytes, new)
            (omega
              (arith, head_size (length l % 2 ^ 8) l _, end_size (n + 1 + length l) suffixes _))
    ]
labels_bytes_size n l (m ∷ ms) (suffix ∷ suffixes) ctx =
    elim (Option-cases (get_suffix_offset ctx suffix)) [
      | inr (offset, old) ↦
          rw (labels_bytes, old) (omega (arith, length-be_bytes 2 (pointer offset)))
      | inl new ↦
          rw (labels_bytes, new)
            (omega (
              arith,
              head_size (length l % 2 ^ 8) l _,
              length-append l (dot ∷ join (m ∷ ms)),
              labels_bytes_size (n + 1 + length l) m ms suffixes _,
            ))
    ]

name_bytes-join :
    (n : ℕ) (l : Name) (ls : List Name) (ctx : NameCompression)
    → All IsLabel (l ∷ ls)
    → name_bytes n (join (l ∷ ls)) ctx ≡ labels_bytes n (l ∷ ls) (suffixes_of (l ∷ ls)) ctx
unfolding name_bytes
name_bytes-join n l ls ctx h =
    let (not_root, not_empty) = join-ne-root l ls h in
    simp
      (strip_dot-join l ls h, split_dot-join l ls h, labels_of_lem (l ∷ ls) h, not_root, not_empty)

display_size :
    (n : ℕ) (ls : List Name) (ctx : NameCompression)
    → All IsLabel ls
    → length (name_bytes n (display ls) ctx).0 ≤ length (display ls) + 2
unfolding display
display_size n [] ctx h = unfold name_bytes name_eq in omega (arith, length-be_bytes 1 0)
display_size n (l ∷ ls) ctx h =
    rw (name_bytes-join n l ls ctx h) (labels_bytes_size n l ls (suffixes_of (l ∷ ls)) ctx)

pub name_bytes_size :
    (n : ℕ) (name : Name) (ctx : NameCompression)
    → IsName name
    → length (name_bytes n name ctx).0 ≤ length name + 2
name_bytes_size n name ctx h = rw h.shown (display_size n h.labels ctx h.each)
