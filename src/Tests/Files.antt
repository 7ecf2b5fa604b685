-- ===== src/Tests/Files.antt =====
-- helpers/memfs/storage.go and the window of nfs_onread.go at concrete values.
use go_nfs.Base.{leb, ◌-◌, ◌≡◌, refl, none, [], ◌∷◌, arith}
use go_nfs.Handlers.Read.{max_read, read_window, cap_read}
use go_nfs.Handlers.Read.Window.{read_window-exact}
use go_nfs.Memfs.Content.{Slice, visible, IsSlice}
use go_nfs.Memfs.Content.Bytes.{splice}
use go_nfs.Memfs.Content.Reads.{read_at-write_at}
use go_nfs.Memfs.Content.Writes.{write_at-splice}
use Prim.Native.Nat.{min}
use go_nfs.Memfs.Content.{read_at, write_at}

read_window-exact_example :
    (read_window 10 4 100 ≡ (min 100 (10 - 4), leb (10 - 4) 100))
    × (cap_read (read_window 10 4 100).0 ≡ min (min 100 (10 - 4)) max_read)
read_window-exact_example = read_window-exact 10 4 100 (omega arith) (omega arith) (omega arith)

-- three bytes in an array of five
abbrev stored : Slice
stored = record { array = 1 ∷ 2 ∷ 3 ∷ 9 ∷ 9 ∷ []; size = 3 }

write_at-splice_example :
    let r = write_at [] (0 ∷ []) (7 ∷ 8 ∷ []) 5 stored in
    (r.0 ≡ 2) × (r.1 ≡ none) × (visible r.2 ≡ splice (visible stored) 5 (7 ∷ 8 ∷ [])) × IsSlice r.2
write_at-splice_example = write_at-splice [] (0 ∷ []) (7 ∷ 8 ∷ []) 5 stored (omega arith) refl

read_at-write_at_example :
    read_at 2 1 (write_at [] (0 ∷ []) (7 ∷ 8 ∷ []) 1 stored).2 ≡ (7 ∷ 8 ∷ [], none)
read_at-write_at_example =
    read_at-write_at [] (0 ∷ []) (7 ∷ 8 ∷ []) 1 stored (omega arith) refl (omega arith)
