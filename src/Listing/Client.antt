-- ===== src/Listing/Client.antt =====
-- A client that lists a directory page by page: it asks for the cookie 0, then for the cookie of the
-- last entry that it was given, until a page says that it is the last.
use go_nfs.Listing.Pages.{read_page-later}
use go_nfs.Listing.Pages.{read_page-first}
use go_nfs.Listing.{read_page}
use go_nfs.Listing.Pages.{listed}
use go_nfs.Listing.{DirEntity}
use mathlib.Core.List.{append_assoc}
use go_nfs.Base.{drop-drop, ◌^◌, ◌<◌, ◌-◌, false}
use go_nfs.Base.{true}
use go_nfs.Attributes.{FileInfo}
use go_nfs.Base.{
  Bool-cases, inl, inr, sym, length-drop, length, take, drop, if◌then◌else◌, ℕ, zero, suc, ◌+◌, ◌≤◌,
  ◌<◌, ◌≡◌, refl, ap, ◌∙◌, Bool, Option, none, some, List, [], ◌∷◌, ◌++◌, arith,
}
use go_nfs.Listing.Pages.{Listed, numbered, IsPage}

unfoldable pub names : Listed → List (List ℕ)
names [] = []
names ((n, c) ∷ es) = n ∷ names es

pub names_of : List FileInfo → List (List ℕ)
names_of [] = []
names_of (c ∷ cs) = c.name ∷ names_of cs

-- the cookie of the last entry of a page, or the one before it if the page is empty
pub last_cookie : ℕ → Listed → ℕ
last_cookie k [] = k
last_cookie k ((n, c) ∷ es) = last_cookie c es

abbrev prepend : List (List ℕ) → Option (List (List ℕ)) → Option (List (List ℕ))
prepend ns none = none
prepend ns (some ms) = some (ns ++ ms)

-- the names that the client ends with, if it sees the last page within `fuel` requests
pub list_all : ℕ → (ℕ → Listed × Bool) → ℕ → Option (List (List ℕ))
list_all zero request cookie = none
list_all (suc f) request cookie =
    let (page, eof) = request cookie in
    let rest = list_all f request (last_cookie cookie page) in
    if eof then some (names page) else prepend (names page) rest

-- A server that answers the cookie 0 with `start` and a page of the contents, and the cookie of an
-- entry with a page of what follows it.
pub record ServesPages (request : ℕ → Listed × Bool) (start : Listed) (cs : List FileInfo)
    : Type 0 where
  pub first : (p : Listed) × ((request 0).0 ≡ start ++ p) × IsPage 0 cs p (request 0).1
  pub later :
      (k : ℕ)
      → k < length cs
      → IsPage (k + 1) (drop (k + 1) cs) (request (k + 2)).0 (request (k + 2)).1

names-append : (xs ys : Listed) → names (xs ++ ys) ≡ names xs ++ names ys
unfolding names
names-append [] ys = refl
names-append ((n, c) ∷ xs) ys = ap (λ r. n ∷ r) (names-append xs ys)

names-numbered : (i : ℕ) (cs : List FileInfo) → names (numbered i cs) ≡ names_of cs
unfolding names numbered names_of
names-numbered i [] = refl
names-numbered i (c ∷ cs) = ap (λ r. c.name ∷ r) (names-numbered (i + 1) cs)

last_cookie-append :
    (k : ℕ) (xs ys : Listed) → last_cookie k (xs ++ ys) ≡ last_cookie (last_cookie k xs) ys
unfolding last_cookie
last_cookie-append k [] ys = refl
last_cookie-append k ((n, c) ∷ xs) ys = last_cookie-append c xs ys

last_cookie-numbered :
    (k i m : ℕ) (cs : List FileInfo)
    → 0 < m
    → m ≤ length cs
    → last_cookie k (numbered i (take m cs)) ≡ i + m + 1
unfolding last_cookie numbered
last_cookie-numbered k i zero cs p h = absurd (omega arith)
last_cookie-numbered k i (suc m) [] p h = absurd (omega arith)
last_cookie-numbered k i (suc zero) (c ∷ cs) p h = omega arith
last_cookie-numbered k i (suc (suc m)) (c ∷ cs) p h =
    last_cookie-numbered (i + 2) (i + 1) (suc m) cs (omega arith) (omega arith) ∙ omega arith

names_of-take :
    (m : ℕ) (cs : List FileInfo) → names_of (take m cs) ++ names_of (drop m cs) ≡ names_of cs
unfolding names_of
names_of-take zero cs = refl
names_of-take (suc m) [] = refl
names_of-take (suc m) (c ∷ cs) = ap (λ r. c.name ∷ r) (names_of-take m cs)

take_all : (m : ℕ) (cs : List FileInfo) → length cs ≤ m → take m cs ≡ cs
take_all zero [] h = refl
take_all zero (c ∷ cs) h = absurd (omega arith)
take_all (suc m) [] h = refl
take_all (suc m) (c ∷ cs) h = ap (λ r. c ∷ r) (take_all m cs (omega arith))

-- the names of the last page, of another page with what follows it, and how much such a page has
module _ {i : ℕ} {ds : List FileInfo} {page : Listed} {eof : Bool} (p : IsPage i ds page eof) where
  last_names : eof ≡ true → names page ≡ names_of ds
  last_names t =
      let all : take p.given ds ≡ ds = take_all p.given ds (ground (arith, p.at_end)) in
      ap names p.entries ∙ names-numbered i (take p.given ds) ∙ ap names_of all

  part : eof ≡ false → (0 < p.given) × (p.given < length ds)
  part f =
      let more : p.given < length ds = ground (arith, p.at_end, p.within) in
      (p.progress (omega arith), more)

  part_names : names page ++ names_of (drop p.given ds) ≡ names_of ds
  part_names =
      ap (λ ns. ns ++ names_of (drop p.given ds))
        (ap names p.entries ∙ names-numbered i (take p.given ds))
      ∙ names_of-take p.given ds

module _ (request : ℕ → Listed × Bool) (start : Listed) (cs : List FileInfo)
    (served : ServesPages request start cs) where
  list_later :
      (f k : ℕ)
      → k < length cs
      → length cs < f + k + 1
      → list_all f request (k + 2) ≡ some (names_of (drop (k + 1) cs))
  unfolding list_all
  list_later zero k h enough = absurd (omega arith)
  list_later (suc f) k h enough = elim (Bool-cases (request (k + 2)).1) [
    | inl t ↦ rw t (ap some (last_names (served.later k h) t))
    | inr more ↦
        let page = served.later k h in
        let (some_given, not_all) = part page more in
        let next : last_cookie (k + 2) (request (k + 2)).0 ≡ k + page.given + 2 =
          ap (last_cookie (k + 2)) page.entries
          ∙ last_cookie-numbered (k + 2) (k + 1) page.given (drop (k + 1) cs) some_given page.within
          ∙ omega arith in
        let rest : list_all f request (k + page.given + 2)
            ≡ some (names_of (drop page.given (drop (k + 1) cs))) =
          list_later f (k + page.given) (omega (arith, length-drop (k + 1) cs)) (omega arith)
          ∙ ap some (
              ap names_of (
                ap (λ (n : ℕ). drop n cs) (omega arith) ∙ sym (drop-drop page.given (k + 1) cs))) in
        rw (more, next, rest) (ap some (part_names page))
  ]

  -- A client of such a server, if it may make one request more than the directory has entries, ends
  -- with the names that come first and then the name of every entry, once and in order.
  pub list_all-ServesPages :
      list_all (suc (length cs)) request 0 ≡ some (names start ++ names_of cs)
  unfolding list_all
  list_all-ServesPages =
      let (p, e, page) = served.first in
      let all : names (request 0).0 ≡ names start ++ names p = ap names e ∙ names-append start p in
      elim (Bool-cases (request 0).1) [
        | inl t ↦ rw (t, all) (ap some (ap (λ ns. names start ++ ns) (last_names page t)))
        | inr more ↦
            let (some_given, not_all) = part page more in
            let (k, is_suc) : (k : ℕ) × (page.given ≡ k + 1) = (page.given - 1, omega arith) in
            let next : last_cookie 0 (request 0).0 ≡ k + 2 =
              ap (last_cookie 0) (e ∙ ap (λ (r : Listed). start ++ r) page.entries)
              ∙ last_cookie-append 0 start (numbered 0 (take page.given cs))
              ∙ last_cookie-numbered (last_cookie 0 start) 0 page.given cs some_given page.within
              ∙ omega arith in
            let rest : list_all (length cs) request (k + 2) ≡ some (names_of (drop page.given cs)) =
              list_later (length cs) k (omega arith) (omega arith)
              ∙ ap some (ap names_of (ap (λ (n : ℕ). drop n cs) (sym is_suc))) in
            rw (more, next, rest, all)
              (ap some (
                append_assoc (names start) (names p) (names_of (drop page.given cs))
                ∙ ap (λ ns. names start ++ ns) (part_names page)))
      ]

-- The client's loop over the pages of onReadDir of one and the same contents gives every name once, in
-- order, after those of the first entities: `count` is 1024 at least, the first entities leave room for
-- an entry below half the handle limit, and no cookie reaches 2 ^ 64.
pub list_all-read_page :
    (file_id : FileInfo → ℕ) (count limit : ℕ) (start : List DirEntity) (cs : List FileInfo)
    → 1024 ≤ count
    → length start ≤ limit
    → length cs + 2 < 2 ^ 64
    → list_all
        (suc (length cs))
        (λ k. (
          listed (read_page file_id count limit start k cs).0,
          (read_page file_id count limit start k cs).1,
        ))
        0
      ≡ some (names (listed start) ++ names_of cs)
list_all-read_page file_id count limit start cs roomy room small =
    list_all-ServesPages _ (listed start) cs (record {
      first = read_page-first file_id count limit roomy start cs small room;
      later = read_page-later file_id count limit roomy start cs small;
    })
