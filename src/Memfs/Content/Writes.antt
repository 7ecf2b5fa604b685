-- ===== src/Memfs/Content/Writes.antt =====
-- helpers/memfs/storage.go: what WriteAt leaves in a file, and what ReadAt then finds.
use go_nfs.Memfs.Content.Bytes.{append_room}
use go_nfs.Base.{false}
use go_nfs.Memfs.Content.Bytes.{visible_past}
use go_nfs.Memfs.Content.{is_negative}
use go_nfs.Base.{list_ext}
use go_nfs.Base.{none}
use go_nfs.Memfs.Content.{keep_tail}
use go_nfs.Base.{
  length, get_elem?, replicate, length-replicate, get_elem?-replicate, lt_or_le, ℕ, ◌+◌, ◌-◌, ◌≤◌,
  ◌<◌, ◌≡◌, refl, sym, ap, ◌∙◌, ◌⊎◌, inl, inr, some, List, arith,
}
use go_nfs.Memfs.Content.{Slice, visible, append, reslice, extend, IsSlice}
use go_nfs.Memfs.Content.Bytes.{
  splice, splice_old, splice_gap, splice_new, splice_behind, append-IsSlice, append_old, append_new,
  append_behind, length-visible, visible_get,
}
use go_nfs.Memfs.Content.{write_at}

module _ (spare spare' p : List ℕ) (off : ℕ) (s : Slice) (v : IsSlice s) where
  -- the slice that the second append of WriteAt starts from, and what it makes
  abbrev pub cut : Slice
  cut = reslice (extend spare off s) off

  abbrev pub joined : Slice
  joined = append spare' cut p

  -- the zeros of the gap
  abbrev zeros : List ℕ
  zeros = replicate (off - s.size) 0

  extended : s.size < off → extend spare off s ≡ append spare s zeros
  unfolding extend
  extended h = ground arith

  not_extended : off ≤ s.size → extend spare off s ≡ s
  unfolding extend
  not_extended h = ground arith

  gap_size : s.size < off → (append spare s zeros).size ≡ off
  unfolding append
  gap_size h = omega (arith, length-replicate {A = ℕ} (off - s.size) 0)

  cut-IsSlice : IsSlice cut
  unfolding reslice
  cut-IsSlice = elim (lt_or_le s.size off) [
    | inl gap ↦
        let whole : (append spare s zeros).size ≤ length (append spare s zeros).array =
          append-IsSlice spare zeros s v in
        rw (extended gap) (omega (arith, whole, gap_size gap))
    | inr inside ↦
        let whole : s.size ≤ length s.array = v in rw (not_extended inside) (omega (arith, whole))
  ]

  joined-IsSlice : IsSlice joined
  joined-IsSlice = append-IsSlice spare' p cut cut-IsSlice

  cut_size : cut.size ≡ off
  unfolding reslice
  cut_size = refl

  pub joined_size : joined.size ≡ off + length p
  unfolding append reslice
  joined_size = refl

  cut_old : (i : ℕ) → i < off → i < s.size → get_elem? cut.array i ≡ get_elem? s.array i
  unfolding reslice
  cut_old i h g = elim (lt_or_le s.size off) [
    | inl gap ↦ rw (extended gap) (append_old spare zeros s v i g)
    | inr inside ↦ rw (not_extended inside) refl
  ]

  cut_gap : (i : ℕ) → i < off → s.size ≤ i → get_elem? cut.array i ≡ some 0
  unfolding reslice
  cut_gap i h g = rw (extended (omega arith)) (
      append_new spare zeros s v i g (omega (arith, length-replicate {A = ℕ} (off - s.size) 0))
      ∙ get_elem?-replicate (off - s.size) 0 (i - s.size) (omega arith))

  cut_inside : off ≤ s.size → cut.array ≡ s.array
  unfolding reslice
  cut_inside h = rw (not_extended h) refl

  -- every byte up to the new end, and the bytes behind it that the file had
  joined_get :
      (i : ℕ)
      → (i < off + length p) ⊎ (i < s.size)
      → get_elem? joined.array i ≡ get_elem? (splice (visible s) off p) i
  joined_get i within = elim (lt_or_le i off) [
    | inl before ↦
        append_old spare' p cut cut-IsSlice i (rw cut_size before) ∙ elim (lt_or_le i s.size) [
          | inl kept ↦
              cut_old i before kept
              ∙ sym (
                  splice_old (visible s) off p i before (rw (length-visible s v) kept)
                  ∙ visible_get s v i kept)
          | inr gap ↦
              cut_gap i before gap
              ∙ sym (splice_gap (visible s) off p i before (rw (length-visible s v) gap))
        ]
    | inr after ↦ elim (lt_or_le i (off + length p)) [
      | inl new ↦
          append_new spare' p cut cut-IsSlice i (rw cut_size after) (rw cut_size new)
          ∙ ap (λ n. get_elem? p (i - n)) cut_size
          ∙ sym (splice_new (visible s) off p i after new)
      | inr behind_new ↦
          let kept : i < s.size = omega (arith, within) in
          let inside : off ≤ s.size = omega arith in
          let whole : s.size ≤ length s.array = v in
          append_behind spare' p cut cut-IsSlice i (rw cut_size behind_new)
            (rw (cut_size, cut_inside inside) (omega (arith, whole)))
          ∙ ap (λ l. get_elem? l i) (cut_inside inside)
          ∙ sym (splice_behind (visible s) off p i behind_new ∙ visible_get s v i kept)
    ]
  ]

  kept_array : (n : ℕ) (t : Slice) → (keep_tail n t).array ≡ t.array
  unfolding keep_tail reslice
  kept_array n t = ground arith

  pub kept_size :
      (n : ℕ) (t : Slice)
      → (n ≤ (keep_tail n t).size)
        × (t.size ≤ (keep_tail n t).size)
        × (((keep_tail n t).size ≡ t.size) ⊎ ((keep_tail n t).size ≡ n))
  unfolding keep_tail reslice
  kept_size n t = ground arith

  joined_room : s.size ≤ length joined.array ⊎ (s.size ≤ joined.size)
  joined_room = elim (lt_or_le s.size (off + length p)) [
    | inl covered ↦ inr (omega (arith, joined_size))
    | inr inside ↦
        let whole : s.size ≤ length s.array = v in
        let same = cut_inside (omega arith) in
        let room : cut.size + length p ≤ length cut.array =
          rw (cut_size, same) (omega (arith, whole)) in
        let grown = append_room spare' p cut cut-IsSlice room in
        inl (omega (arith, whole, grown, ap length same))
  ]

  -- the slice that WriteAt leaves
  abbrev pub written : Slice
  written = keep_tail s.size joined

  written-IsSlice : IsSlice written
  written-IsSlice =
      let joined_whole : joined.size ≤ length joined.array = joined-IsSlice in
      rw kept_array (omega (arith, joined_room, joined_whole, kept_size s.size joined))

  pub written_past : (i : ℕ) → written.size ≤ i → get_elem? (splice (visible s) off p) i ≡ none
  written_past i h =
      splice_behind (visible s) off p i (omega (arith, kept_size s.size joined, joined_size))
      ∙ visible_past s v i (omega (arith, kept_size s.size joined, joined_size))

  within : (i : ℕ) → i < written.size → (i < off + length p) ⊎ (i < s.size)
  within i h = elim (lt_or_le i (off + length p)) [
    | inl new ↦ inl new
    | inr later ↦ inr (omega (arith, kept_size s.size joined, joined_size))
  ]

  pub written-splice : visible written ≡ splice (visible s) off p
  written-splice = list_ext (visible written) (splice (visible s) off p) λ i.
      elim (lt_or_le i written.size) [
        | inl seen ↦
            visible_get written written-IsSlice i seen
            ∙ ap (λ l. get_elem? l i) (kept_array s.size joined)
            ∙ joined_get i (within i seen)
        | inr past ↦ visible_past written written-IsSlice i past ∙ sym (written_past i past)
      ]

  -- A write at an offset that is not negative, to a slice within its array, reports all of its
  -- bytes, and leaves the file with the bytes that it had, the new ones over them from the offset
  -- on, and zeros in between if it ended before the offset; wherever the runtime puts the array,
  -- and whatever is in it behind the end.
  pub write_at-splice :
      is_negative off ≡ false
      → let r = write_at spare spare' p off s in
        (r.0 ≡ length p) × (r.1 ≡ none) × (visible r.2 ≡ splice (visible s) off p) × IsSlice r.2
  unfolding write_at
  write_at-splice h = rw h (refl, refl, written-splice, written-IsSlice)
