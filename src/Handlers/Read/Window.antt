-- ===== src/Handlers/Read/Window.antt =====
-- nfs_onread.go: the size of the buffer of a READ.
use go_nfs.Base.{arith}
use Prim.Native.Nat.{min}
use go_nfs.Base.{
  Bool, true, false, ◌≤◌, ◌∙◌, ap, refl, inl, inr, lt_or_le, leb, ℕ, ◌-◌, ◌^◌, ◌<◌, ◌≡◌,
}
use go_nfs.Handlers.Read.{max_read, read_window, cap_read}

window_past :
    (size offset count : ℕ)
    → size < 2 ^ 63
    → offset < 2 ^ 63
    → size ≤ offset
    → read_window size offset count ≡ (0, true)
unfolding read_window
window_past size offset count s o h = ground arith

window_rest :
    (size offset count : ℕ)
    → size < 2 ^ 63
    → offset < 2 ^ 63
    → count < 2 ^ 32
    → offset < size
    → size - offset ≤ count
    → read_window size offset count ≡ (size - offset, true)
unfolding read_window
window_rest size offset count s o c h g = ground arith

window_whole :
    (size offset count : ℕ)
    → size < 2 ^ 63
    → offset < 2 ^ 63
    → count < 2 ^ 32
    → offset < size
    → count < size - offset
    → read_window size offset count ≡ (count, false)
unfolding read_window
window_whole size offset count s o c h g = ground arith

pair : {a c : ℕ} {b d : Bool} → a ≡ c → b ≡ d → ◌≡◌ {A = ℕ × Bool} (a, b) (c, d)
pair e f = rw (e, f) refl

cap_read-min : (count : ℕ) → cap_read count ≡ min count max_read
unfolding cap_read
cap_read-min count = ground arith

-- For a size and an offset that are not negative as int64, the count that is read is the one that was
-- asked for, or what is left of the file if that is less, and never more than MaxRead; the end of the
-- file is reported exactly if what is left is not more than what was asked for, nothing being left
-- behind the end. No conversion between int64, uint64 and uint32 loses anything.
pub read_window-exact :
    (size offset count : ℕ)
    → size < 2 ^ 63
    → offset < 2 ^ 63
    → count < 2 ^ 32
    → (read_window size offset count ≡ (min count (size - offset), leb (size - offset) count))
      × (cap_read (read_window size offset count).0 ≡ min (min count (size - offset)) max_read)
read_window-exact size offset count s o c =
    let window = exact in (window, cap_read-min _ ∙ ap (λ w. min w.0 max_read) window)
  where
    exact : read_window size offset count ≡ (min count (size - offset), leb (size - offset) count)
    exact = elim (lt_or_le offset size) [
      | inr past ↦ window_past size offset count s o past ∙ pair (omega arith) (ground arith)
      | inl inside ↦ elim (lt_or_le count (size - offset)) [
        | inl whole ↦
            window_whole size offset count s o c inside whole ∙ pair (omega arith) (ground arith)
        | inr rest ↦
            window_rest size offset count s o c inside rest ∙ pair (omega arith) (ground arith)
      ]
    ]
