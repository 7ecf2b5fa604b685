-- ===== src/Memfs/Content/Reads.antt =====
-- helpers/memfs/storage.go: what ReadAt finds, also after a WriteAt.
use go_nfs.Base.{◌∷◌}
use go_nfs.Base.{
  [], refl, inl, length-drop, length, get_elem?, take, drop, length-take, get_elem?-take,
  get_elem?-drop, get_elem?_past, list_ext, ltb, leb, if◌then◌else◌, lt_or_le, ℕ, ◌+◌, ◌-◌, ◌≤◌,
  ◌<◌, ◌≡◌, sym, ap, ◌∙◌, inl, inr, false, ◌||◌, none, some, List, arith,
}
use go_nfs.Errors.Chain.{io_eof}
use go_nfs.Memfs.Content.{Slice, visible, is_negative, IsSlice}
use go_nfs.Memfs.Content.Bytes.{length-visible, splice, splice_new}
use go_nfs.Memfs.Content.Writes.{joined, joined_size, kept_size, written, written-splice}
use go_nfs.Memfs.Content.{write_at, read_at}

-- a list that is not longer than the cut
take_short : (n : ℕ) (l : List ℕ) → length l ≤ n → take n l ≡ l
take_short n l h = list_ext (take n l) l λ i. elim (lt_or_le i n) [
  | inl seen ↦ get_elem?-take n l i seen
  | inr past ↦
      get_elem?_past (take n l) i (omega (arith, length-take n l))
      ∙ sym (get_elem?_past l i (omega arith))
]

nil_of_length : (l : List ℕ) → length l ≡ 0 → l ≡ []
nil_of_length [] h = refl
nil_of_length (x ∷ l) h = absurd (omega arith)

read_at_past :
    (room off : ℕ) (s : Slice)
    → is_negative off ≡ false
    → s.size ≤ off
    → read_at room off s ≡ ([], some io_eof)
unfolding read_at
read_at_past room off s h g = ground arith

read_at_partly :
    (room off : ℕ) (s : Slice)
    → is_negative off ≡ false
    → off < s.size
    → s.size < off + room
    → read_at room off s ≡ (take (s.size - off) (drop off (visible s)), some io_eof)
unfolding read_at
read_at_partly room off s h g f = ground arith

read_at_within :
    (room off : ℕ) (s : Slice)
    → is_negative off ≡ false
    → off < s.size
    → off + room ≤ s.size
    → read_at room off s ≡ (take room (drop off (visible s)), none)
unfolding read_at
read_at_within room off s h g f = ground arith

-- A read of a slice within its array, at an offset that is not negative, yields the bytes of the
-- file from there on, as many as the buffer takes, and reports the end of the file exactly if it
-- starts at the end or behind it or did not fill the buffer.
pub read_at-bytes :
    (room off : ℕ) (s : Slice)
    → IsSlice s
    → is_negative off ≡ false
    → read_at room off s ≡ (
      take room (drop off (visible s)),
      if leb s.size off || ltb (s.size - off) room then some io_eof else none,
    )
read_at-bytes room off s v h =
    let rest = drop off (visible s) in
    let size = length-visible s v in
    elim (lt_or_le off s.size) [
      | inr past ↦
          read_at_past room off s h past
          ∙ ap (λ l. (l, some io_eof))
              (sym (
                nil_of_length (take room rest)
                  (omega (arith, length-take room rest, length-drop off (visible s), size))))
          ∙ ap (λ e. (take room rest, e)) (ground arith)
      | inl inside ↦ elim (lt_or_le s.size (off + room)) [
        | inl short ↦
            read_at_partly room off s h inside short
            ∙ ap (λ l. (l, some io_eof))
                (take_short (s.size - off) rest (omega (arith, length-drop off (visible s), size))
                  ∙ sym (take_short room rest (omega (arith, length-drop off (visible s), size))))
            ∙ ap (λ e. (take room rest, e)) (ground arith)
        | inr full ↦
            read_at_within room off s h inside full ∙ ap (λ e. (take room rest, e)) (ground arith)
      ]
    ]

module _ (spare spare' p : List ℕ) (off : ℕ) (s : Slice) (v : IsSlice s) where
  -- the bytes at the offset of a splice are the new ones
  splice_found : take (length p) (drop off (splice (visible s) off p)) ≡ p
  splice_found = list_ext (take (length p) (drop off (splice (visible s) off p))) p λ i.
      elim (lt_or_le i (length p)) [
        | inl new ↦
            get_elem?-take (length p) (drop off (splice (visible s) off p)) i new
            ∙ get_elem?-drop off (splice (visible s) off p) i
            ∙ splice_new (visible s) off p (off + i) (omega arith) (omega arith)
            ∙ ap (get_elem? p) (omega arith)
        | inr past ↦
            get_elem?_past (take (length p) (drop off (splice (visible s) off p))) i
              (omega (arith, length-take (length p) (drop off (splice (visible s) off p))))
            ∙ sym (get_elem?_past p i past)
      ]

  -- What is written at an offset that is not negative is read back there, if it is at least one
  -- byte: the same bytes, and not the end of the file.
  pub read_at-write_at :
      is_negative off ≡ false
      → 0 < length p
      → read_at (length p) off (write_at spare spare' p off s).2 ≡ (p, none)
  unfolding write_at
  read_at-write_at h g =
      let after = written spare spare' p off s v in
      rw h (
        read_at_within (length p) off after h
          (omega (
            arith,
            kept_size spare spare' p off s v s.size (joined spare spare' p off s v),
            joined_size spare spare' p off s v,
          ))
          (omega (
            arith,
            kept_size spare spare' p off s v s.size (joined spare spare' p off s v),
            joined_size spare spare' p off s v,
          ))
        ∙ ap (λ l. (take (length p) (drop off l), none)) (written-splice spare spare' p off s v)
        ∙ ap (λ l. (l, none)) splice_found)
