-- ===== src/Handlers/ReadDirPlus/PlusPages.antt =====
-- nfs_onreaddirplus.go: what one page holds, and that the pages of a client's loop are the directory.
use go_nfs.Handlers.ReadDirPlus.{plus_entity}
use go_nfs.Handlers.ReadDirPlus.{read_plus_page}
use go_nfs.Handlers.ReadDirPlus.{fill_plus}
use go_nfs.Action.{UserHandler}
use go_nfs.Attributes.{FileInfo}
use go_nfs.Backend.{Backend}
use mathlib.Core.Path.{subst}
use go_nfs.Base.{
  length, take, drop, length-drop, ◌==◌, Bool-cases, ℕ, zero, ◌+◌, ◌/◌, ◌^◌, ◌≤◌, ◌<◌, ◌≡◌, refl,
  ap, ◌∙◌, inl, inr, Bool, true, false, ◌||◌, some, List, [], ◌∷◌, ◌++◌, arith,
}
use go_nfs.Changes.{Files}
use go_nfs.Handlers.ReadDir.{Lister}
use go_nfs.Handlers.ReadDir.Whole.{first_two}
use go_nfs.Handlers.ReadDirPlus.{ReadDirPlusArgs, PlusEntity, close_last_plus, plus_dots}
use go_nfs.Listing.Client.{names, names_of, list_all, list_all-ServesPages}
use go_nfs.Listing.Pages.{Listed, numbered, IsPage}
use go_nfs.Words.{u32, u64}
use go_nfs.Base.{ltb, suc}

pub listed_plus : List PlusEntity → Listed
listed_plus [] = []
listed_plus (e ∷ es) = (e.name, e.cookie) ∷ listed_plus es

listed_plus-append :
    (xs ys : List PlusEntity) → listed_plus (xs ++ ys) ≡ listed_plus xs ++ listed_plus ys
unfolding listed_plus
listed_plus-append [] ys = refl
listed_plus-append (x ∷ xs) ys = ap (λ r. (x.name, x.cookie) ∷ r) (listed_plus-append xs ys)

listed_plus-close_last : (es : List PlusEntity) → listed_plus (close_last_plus es) ≡ listed_plus es
unfolding listed_plus close_last_plus
listed_plus-close_last [] = refl
listed_plus-close_last (e ∷ []) = refl
listed_plus-close_last (e ∷ f ∷ es) =
    ap (λ r. (e.name, e.cookie) ∷ r) (listed_plus-close_last (f ∷ es))

-- every name fits a page of `room` bytes
abbrev pub HasShortNames : ℕ → List FileInfo → Type 0
HasShortNames room [] = Unit
HasShortNames room (c ∷ cs) = (length c.name + 20 ≤ room) × HasShortNames room cs

drop-HasShortNames :
    (room n : ℕ) (cs : List FileInfo) → HasShortNames room cs → HasShortNames room (drop n cs)
drop-HasShortNames room zero cs h = h
drop-HasShortNames room (suc n) [] h = h
drop-HasShortNames room (suc n) (c ∷ cs) h = drop-HasShortNames room n cs h.1

module _ (b : Backend) (fs : Files b) (l : Lister b) (h : UserHandler b) (path : b.FilePath) where
  module _ (obj : ReadDirPlusArgs) where
    abbrev fill_from :
        ℕ → Bool → ℕ → ℕ → ℕ → List FileInfo → b.World → List PlusEntity × Bool × b.World
    fill_from = fill_plus b fs l h path obj

    -- whether the loop stops before a name of `n` bytes
    abbrev stops : ℕ → ℕ → ℕ → ℕ → Bool
    stops d bytes len n =
        ltb obj.dir_count (u32 (d + u32 (n + 20)))
        || (ltb obj.max_count (u32 (bytes + 512)) || ltb (l.handle_limit / 2) len)

    small_cookie : (i : ℕ) → i + 2 < 2 ^ 64 → u64 (i + 2) ≡ i + 2
    small_cookie i h = omega arith

    -- what the loop appends once it has started
    fill_plus_started :
        (i d bytes len : ℕ) (cs : List FileInfo) (w : b.World)
        → i + length cs + 2 < 2 ^ 64
        → (m : ℕ) × (m ≤ length cs)
          × (listed_plus (fill_from i true d bytes len cs w).0 ≡ numbered i (take m cs))
          × ((fill_from i true d bytes len cs w).1 ≡ (m == length cs))
          × (d ≡ 0
              → HasShortNames obj.dir_count cs
              → u32 (bytes + 512) ≤ obj.max_count
              → len ≤ l.handle_limit / 2
              → 0 < length cs
              → 0 < m)
    unfolding fill_plus plus_entity listed_plus numbered
    fill_plus_started i d bytes len [] w small = (0, omega arith, refl, refl, λ e s x y z. z)
    fill_plus_started i d bytes len (c ∷ cs) w small =
        elim (Bool-cases (stops d bytes len (length c.name))) [
          | inl t ↦ (0, omega arith, rw t refl, rw t (ground arith), λ e s x y z. ground arith)
          | inr f ↦
              let w' = (h.to_handle (b.join_name path c.name) w).1 in
              let (m, within, es, eof, _) =
                fill_plus_started (i + 1) (u32 (d + u32 (length c.name + 20))) (u32 (bytes + 512))
                  (len + 1) cs w' (omega arith) in
              (
                suc m,
                omega arith,
                rw (f, small_cookie i (omega arith), es) refl,
                rw (f, eof) (ground arith),
                λ e s x y z. omega arith,
              )
        ]

    same_cookie :
        (i : ℕ) → obj.cookie ≡ i + 0 + 2 → i + 2 < 2 ^ 64 → (u64 (i + 2) == obj.cookie) ≡ true
    same_cookie i e small = ground arith

    other_cookie :
        (i k : ℕ)
        → 0 < k
        → obj.cookie ≡ i + k + 2
        → i + 2 < 2 ^ 64
        → (u64 (i + 2) == obj.cookie) ≡ false
    other_cookie i k p e small = ground arith

    -- the loop up to the entry of the cookie
    fill_plus_skipped :
        (i k d bytes len : ℕ) (cs : List FileInfo) (w : b.World)
        → obj.cookie ≡ i + k + 2
        → k < length cs
        → i + length cs + 2 < 2 ^ 64
        → fill_from i false d bytes len cs w
          ≡ fill_from (suc (i + k)) true d bytes len (drop (suc k) cs) w
    unfolding fill_plus
    fill_plus_skipped i k d bytes len [] w e below small = absurd (omega arith)
    fill_plus_skipped i zero d bytes len (c ∷ cs) w e below small =
        rw (same_cookie i e (omega arith))
          (ap (λ (j : ℕ). fill_from j true d bytes len cs w) (omega arith))
    fill_plus_skipped i (suc k) d bytes len (c ∷ cs) w e below small =
        rw (other_cookie i (suc k) (omega arith) e (omega arith)) (
          fill_plus_skipped (i + 1) k d bytes len cs w (omega arith) (omega arith) (omega arith)
          ∙ ap (λ (j : ℕ). fill_from j true d bytes len (drop (suc k) cs) w) (omega arith))

  -- what a client sees of the page that a request gets in a world
  abbrev pub plus_page : List FileInfo → ReadDirPlusArgs → b.World → Listed × Bool
  plus_page cs obj w = (
    listed_plus (read_plus_page b fs l h path obj cs w).0,
    (read_plus_page b fs l h path obj cs w).1,
  )

  module _ (cs : List FileInfo) (small : length cs + 2 < 2 ^ 64) (obj : ReadDirPlusArgs)
      (roomy : 4096 ≤ obj.max_count) (short : HasShortNames obj.dir_count cs) where
    plus_dots-listed : (w : b.World) → listed_plus (plus_dots b fs l h path w) ≡ first_two
    unfolding plus_dots listed_plus
    plus_dots-listed w = refl

    plus_dots-length : (w : b.World) → length (plus_dots b fs l h path w) ≡ 2
    unfolding plus_dots
    plus_dots-length w = refl

    abbrev all_from : b.World → List PlusEntity × Bool × b.World
    all_from w = fill_plus b fs l h path obj 0 true 0 100 (length (plus_dots b fs l h path w)) cs w

    plus_page_first :
        (w : b.World)
        → obj.cookie ≡ 0
        → plus_page cs obj w ≡ (
          listed_plus (close_last_plus (plus_dots b fs l h path w ++ (all_from w).0)),
          (all_from w).1,
        )
    unfolding read_plus_page
    plus_page_first w start = rw (zero_test obj.cookie start) refl
      where
        zero_test : (n : ℕ) → n ≡ 0 → (n == 0) ≡ true
        zero_test n e = ground arith

    pub read_plus_page-first :
        obj.cookie ≡ 0
        → 2 ≤ l.handle_limit / 2
        → (w : b.World)
        → (p : Listed) × ((plus_page cs obj w).0 ≡ first_two ++ p)
          × IsPage 0 cs p (plus_page cs obj w).1
    read_plus_page-first start room w =
        let (m, within, es, eof, more) =
          fill_plus_started obj 0 0 100 (length (plus_dots b fs l h path w)) cs w (omega arith) in
        let e = plus_page_first w start in
        (
          listed_plus (all_from w).0,
          ap (λ (r : Listed × Bool). r.0) e
              ∙ listed_plus-close_last _
              ∙ listed_plus-append (plus_dots b fs l h path w) _
              ∙ ap (λ (r : Listed). r ++ listed_plus (all_from w).0) (plus_dots-listed w),
          record {
            given = m;
            within = within;
            entries = es;
            at_end = ap (λ (r : Listed × Bool). r.1) e ∙ eof;
            progress = more refl short (omega arith) (omega (arith, plus_dots-length w));
          },
        )

    abbrev rest_from : ℕ → b.World → List PlusEntity × Bool × b.World
    rest_from k w = fill_plus b fs l h path obj (suc k) true 0 100 0 (drop (suc k) cs) w

    plus_page_later :
        (k : ℕ) (w : b.World)
        → obj.cookie ≡ k + 2
        → k < length cs
        → plus_page cs obj w ≡ (listed_plus (close_last_plus (rest_from k w).0), (rest_from k w).1)
    unfolding read_plus_page
    plus_page_later k w e below = rw (not_zero obj.cookie (omega arith)) (
        ap (λ (r : List PlusEntity × Bool × b.World). (listed_plus (close_last_plus r.0), r.1))
          (fill_plus_skipped obj 0 k 0 100 0 cs w (omega arith) below (omega arith)
            ∙ ap (λ (j : ℕ). fill_plus b fs l h path obj j true 0 100 0 (drop (suc k) cs) w)
                (omega arith)))
      where
        not_zero : (n : ℕ) → 0 < n → (n == 0) ≡ false
        not_zero n p = ground arith

    pub read_plus_page-later :
        (k : ℕ) (w : b.World)
        → obj.cookie ≡ k + 2
        → k < length cs
        → IsPage (k + 1) (drop (k + 1) cs) (plus_page cs obj w).0 (plus_page cs obj w).1
    read_plus_page-later k w e below =
        let (m, within, es, eof, more) =
          fill_plus_started obj (suc k) 0 100 0 (drop (suc k) cs) w
            (omega (arith, length-drop (suc k) cs)) in
        let same = plus_page_later k w e below in
        let one : suc k ≡ k + 1 = omega arith in
        subst (λ (n : ℕ). IsPage n (drop n cs) (plus_page cs obj w).0 (plus_page cs obj w).1) one
          (record {
            given = m;
            within = within;
            entries =
                ap (λ (r : Listed × Bool). r.0) same
                ∙ listed_plus-close_last (rest_from k w).0
                ∙ es;
            at_end = ap (λ (r : Listed × Bool). r.1) same ∙ eof;
            progress =
                more refl (drop-HasShortNames obj.dir_count (suc k) cs short) (omega arith)
                  (omega arith);
          })

-- A client's loop over the pages of onReadDirPlus of one and the same contents, each in any state of
-- the world, gives ".", ".." and then every name once, in order: MaxCount is 4096 at least, half the
-- handle limit is 2 at least, every name with 20 bytes more fits DirCount, and no cookie reaches 2 ^ 64.
pub list_all-read_plus_page :
    (b : Backend) (fs : Files b) (l : Lister b) (h : UserHandler b) (path : b.FilePath)
    (cs : List FileInfo) (obj : ReadDirPlusArgs) (worlds : ℕ → b.World)
    → length cs + 2 < 2 ^ 64
    → 4096 ≤ obj.max_count
    → 2 ≤ l.handle_limit / 2
    → HasShortNames obj.dir_count cs
    → list_all
        (suc (length cs))
        (λ k. plus_page b fs l h path cs (record obj { cookie = k }) (worlds k))
        0
      ≡ some ((46 ∷ []) ∷ (46 ∷ 46 ∷ []) ∷ names_of cs)
unfolding names
list_all-read_plus_page b fs l h path cs obj worlds small roomy room short =
    list_all-ServesPages _ first_two cs (record {
      first =
          read_plus_page-first b fs l h path cs small (record obj { cookie = 0 }) roomy short refl
            room (worlds 0);
      later = λ k below.
          read_plus_page-later b fs l h path cs small (record obj { cookie = k + 2 }) roomy short k
            (worlds (k + 2)) refl below;
    })
