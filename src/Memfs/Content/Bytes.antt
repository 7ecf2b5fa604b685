-- ===== src/Memfs/Content/Bytes.antt =====
-- helpers/memfs/storage.go: the bytes of a file after a write, against the splice that WriteAt means.
use go_nfs.Base.{
  length-drop, ◌≤◌, none, get_elem?_past, length, get_elem?, take, drop, replicate, length-append,
  length-take, length-replicate, get_elem?-append_left, get_elem?-append_right, get_elem?-take,
  get_elem?-drop, get_elem?-replicate, ℕ, ◌+◌, ◌-◌, ◌≤◌, ◌<◌, ◌≡◌, ap, ◌∙◌, some, List, ◌++◌, arith,
}
use go_nfs.Memfs.Content.{visible, Slice, behind, append, IsSlice}

-- the bytes of a file after `p` is written at `off`: what was before it, with zeros for a gap, the new
-- bytes, and what was behind them
unfoldable pub splice : List ℕ → ℕ → List ℕ → List ℕ
splice old off p =
    (take off old ++ replicate (off - length old) 0) ++ (p ++ drop (off + length p) old)

-- the entry of `front ++ (mid ++ rest)` at `i`
module _ (front mid rest : List ℕ) (i : ℕ) where
  in_front : i < length front → get_elem? (front ++ (mid ++ rest)) i ≡ get_elem? front i
  in_front h = get_elem?-append_left front (mid ++ rest) i h

  in_mid :
      length front ≤ i
      → i < length front + length mid
      → get_elem? (front ++ (mid ++ rest)) i ≡ get_elem? mid (i - length front)
  in_mid h g =
      get_elem?-append_right front (mid ++ rest) i h
      ∙ get_elem?-append_left mid rest (i - length front) (omega arith)

  in_rest :
      length front + length mid ≤ i
      → get_elem? (front ++ (mid ++ rest)) i ≡ get_elem? rest (i - length front - length mid)
  in_rest h =
      get_elem?-append_right front (mid ++ rest) i (omega arith)
      ∙ get_elem?-append_right mid rest (i - length front) (omega arith)

module _ (old : List ℕ) (off : ℕ) (p : List ℕ) (i : ℕ) where
  length-front : length (take off old ++ replicate (off - length old) 0) ≡ off
  length-front = omega (
    arith,
    length-append (take off old) (replicate (off - length old) 0),
    length-take off old,
    length-replicate {A = ℕ} (off - length old) 0,
  )

  pub splice_old : i < off → i < length old → get_elem? (splice old off p) i ≡ get_elem? old i
  unfolding splice
  splice_old h g =
      in_front (take off old ++ replicate (off - length old) 0) p (drop (off + length p) old) i
        (omega (arith, length-front))
      ∙ get_elem?-append_left (take off old) (replicate (off - length old) 0) i
          (omega (arith, length-take off old))
      ∙ get_elem?-take off old i h

  pub splice_gap : i < off → length old ≤ i → get_elem? (splice old off p) i ≡ some 0
  unfolding splice
  splice_gap h g =
      in_front (take off old ++ replicate (off - length old) 0) p (drop (off + length p) old) i
        (omega (arith, length-front))
      ∙ get_elem?-append_right (take off old) (replicate (off - length old) 0) i
          (omega (arith, length-take off old))
      ∙ get_elem?-replicate (off - length old) 0 (i - length (take off old))
          (omega (arith, length-take off old))

  pub splice_new :
      off ≤ i → i < off + length p → get_elem? (splice old off p) i ≡ get_elem? p (i - off)
  unfolding splice
  splice_new h g =
      in_mid (take off old ++ replicate (off - length old) 0) p (drop (off + length p) old) i
        (omega (arith, length-front)) (omega (arith, length-front))
      ∙ ap (λ n. get_elem? p (i - n)) length-front

  pub splice_behind : off + length p ≤ i → get_elem? (splice old off p) i ≡ get_elem? old i
  unfolding splice
  splice_behind h =
      in_rest (take off old ++ replicate (off - length old) 0) p (drop (off + length p) old) i
        (omega (arith, length-front))
      ∙ get_elem?-drop (off + length p) old
          (i - length (take off old ++ replicate (off - length old) 0) - length p)
      ∙ ap (get_elem? old) (omega (arith, length-front))

module _ (spare p : List ℕ) (s : Slice) (v : IsSlice s) where
  length-kept : length (take s.size s.array) ≡ s.size
  length-kept =
      let inside : s.size ≤ length s.array = v in omega (arith, length-take s.size s.array)

  pub append-IsSlice : IsSlice (append spare s p)
  unfolding append
  append-IsSlice =
      let end = s.size + length p in
      let rest = behind spare end s.array in
      let whole : end ≤ length (take s.size s.array ++ (p ++ rest)) = omega (
        arith,
        length-append (take s.size s.array) (p ++ rest),
        length-append p rest,
        length-kept,
      ) in
      whole

  pub append_room :
      s.size + length p ≤ length s.array → length s.array ≤ length (append spare s p).array
  unfolding append
  append_room h =
      let end = s.size + length p in
      let rest = behind spare end s.array in
      omega (
        arith,
        length-append (take s.size s.array) (p ++ rest),
        length-append p rest,
        length-kept,
        length-drop end s.array,
        ap length (in_place h),
      )
    where
      in_place :
          s.size + length p ≤ length s.array
          → behind spare (s.size + length p) s.array ≡ drop (s.size + length p) s.array
      in_place g = unfold behind in ground arith

  pub append_old : (i : ℕ) → i < s.size → get_elem? (append spare s p).array i ≡ get_elem? s.array i
  unfolding append
  append_old i h =
      in_front (take s.size s.array) p (behind spare (s.size + length p) s.array) i
        (omega (arith, length-kept))
      ∙ get_elem?-take s.size s.array i h

  pub append_new :
      (i : ℕ)
      → s.size ≤ i
      → i < s.size + length p
      → get_elem? (append spare s p).array i ≡ get_elem? p (i - s.size)
  unfolding append
  append_new i h g =
      in_mid (take s.size s.array) p (behind spare (s.size + length p) s.array) i
        (omega (arith, length-kept)) (omega (arith, length-kept))
      ∙ ap (λ n. get_elem? p (i - n)) length-kept

  pub append_behind :
      (i : ℕ)
      → s.size + length p ≤ i
      → s.size + length p ≤ length s.array
      → get_elem? (append spare s p).array i ≡ get_elem? s.array i
  unfolding append
  append_behind i h g =
      in_rest (take s.size s.array) p (behind spare (s.size + length p) s.array) i
        (omega (arith, length-kept))
      ∙ ap (λ l. get_elem? l (i - length (take s.size s.array) - length p)) in_place
      ∙ get_elem?-drop (s.size + length p) s.array (i - length (take s.size s.array) - length p)
      ∙ ap (get_elem? s.array) (omega (arith, length-kept))
    where
      in_place : behind spare (s.size + length p) s.array ≡ drop (s.size + length p) s.array
      in_place = unfold behind in ground arith

module _ (s : Slice) (v : IsSlice s) where
  pub length-visible : length (visible s) ≡ s.size
  unfolding visible
  length-visible =
      let inside : s.size ≤ length s.array = v in omega (arith, length-take s.size s.array)

  pub visible_get : (i : ℕ) → i < s.size → get_elem? (visible s) i ≡ get_elem? s.array i
  unfolding visible
  visible_get i h = get_elem?-take s.size s.array i h

  pub visible_past : (i : ℕ) → s.size ≤ i → get_elem? (visible s) i ≡ none
  visible_past i h = get_elem?_past (visible s) i (omega (arith, length-visible))
