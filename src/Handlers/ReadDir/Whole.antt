-- ===== src/Handlers/ReadDir/Whole.antt =====
-- nfs_onreaddir.go: the answers of READDIR to one client that lists a directory page by page.

use go_nfs.Errors.Chain.{nfs_plain}
use go_nfs.Listing.Client.{names, names_of, list_all, list_all-ServesPages}
use go_nfs.Listing.Pages.{read_page-first, read_page-later}
use go_nfs.Listing.{dots}
use go_nfs.Listing.Client.{ServesPages}
use go_nfs.Base.{◌++◌, ltb, not, ◌&&◌, suc, ◌∷◌, length, ◌==◌, if◌then◌else◌, Option, none, [], ◌∷◌}
use go_nfs.Errors.Chain.{Result}
use go_nfs.Handlers.ReadDir.{DirReply, sort_by_name, dots_of, entry_id, verified, load_listing}
use go_nfs.Handlers.Remove.{put_world}
use go_nfs.Listing.{DirEntity, read_page}
use go_nfs.Listing.Pages.{Listed, listed}
use go_nfs.Action.{>>=-ok}
use go_nfs.Base.{◌^◌, ◌<◌, ◌+◌, ◌/◌, ap, ◌≢◌, ◌∙◌}
use go_nfs.Action.{>>=-ok}
use go_nfs.Action.{UserHandler}
use go_nfs.Attributes.{FileInfo}
use go_nfs.Backend.{Backend}
use go_nfs.Base.{leb, ℕ, ◌≤◌, ◌<◌, ◌≡◌, refl, ◌∙◌, Bool, true, false, some, List, arith}
use go_nfs.Changes.{Files}
use go_nfs.Errors.Chain.{ok, err, nfs_error}
use go_nfs.Errors.Codes.{NfsStatus}
use go_nfs.Handlers.Commit.{world_of}
use go_nfs.Handlers.ReadDir.{
  Lister, ReadDirArgs, err_short_buffer, listing_at, get_dir_listing, matches_cookie, reply_page,
  on_read_dir,
}
use go_nfs.Server.{Server}

module _ (b : Backend) (fs : Files b) (l : Lister b) (h : UserHandler b) (obj : ReadDirArgs) where
  -- A request that asks for less than 1024 bytes is refused, before anything else.
  pub on_read_dir-too_small :
      (s : Server b)
      → obj.count < 1024
      → on_read_dir b fs l h (ok obj) s
        ≡ some (err (nfs_error NfsStatus.toosmall err_short_buffer), s)
  unfolding on_read_dir
  on_read_dir-too_small s small = rw (short obj.count small) refl
    where
      short : (n : ℕ) → n < 1024 → leb 1024 n ≡ false
      short n h = ground arith

  module _ (s t : Server b) (writable : Bool) (path : b.FilePath) (contents : List FileInfo) (v : ℕ)
      (roomy : 1024 ≤ obj.count)
      (found : h.from_handle obj.handle (world_of b s) ≡ ok (writable, path))
      (listing : listing_at b fs l path obj.cookie_verif s ≡ some (ok (contents, v), t)) where
    listing_got :
        get_dir_listing b fs l h obj.handle obj.cookie_verif s ≡ some (ok (contents, v), t)
    unfolding get_dir_listing
    listing_got = rw found listing

    enough : leb 1024 obj.count ≡ true
    enough = ground arith

    on_read_dir_replies :
        matches_cookie obj v ≡ true
        → on_read_dir b fs l h (ok obj) s ≡ reply_page b fs l path obj contents v t
    unfolding on_read_dir
    on_read_dir_replies m =
        rw (enough, found)
          (>>=-ok (get_dir_listing b fs l h obj.handle obj.cookie_verif) _ s (contents, v) t
              listing_got
            ∙ rw m refl)

-- what a client makes of a reply; an error ends its listing
abbrev pub seen_page : {b : Backend} → Option (Result DirReply × Server b) → Listed × Bool
seen_page (some (ok r, s)) = (listed r.entities, r.eof)
seen_page (some (err e, s)) = ([], true)
seen_page none = ([], true)

-- the entries "." and ".."
abbrev pub first_two : Listed
first_two = (46 ∷ [], 0) ∷ (46 ∷ 46 ∷ [], 1) ∷ []

-- the request for a cookie, with the verifier of the first reply, and what the client sees of the
-- answer in the state in which the request arrives
abbrev pub request_at : ℕ → ℕ → ℕ → ℕ → ReadDirArgs
request_at key count v k = record {
  handle = key;
  cookie = k;
  cookie_verif = if k == 0 then 0 else v;
  count = count;
}

abbrev pub answer_at :
    (b : Backend)
    → Files b
    → Lister b
    → UserHandler b
    → ℕ
    → ℕ
    → (ℕ → Server b)
    → ℕ
    → ℕ
    → Listed × Bool
answer_at b fs l h key count states v k =
    seen_page (on_read_dir b fs l h (ok (request_at key count v k)) (states k))

module _ (b : Backend) (fs : Files b) (l : Lister b) (h : UserHandler b) (key count : ℕ)
    (states : ℕ → Server b) (writable : Bool) (path : b.FilePath) (raw : List FileInfo) (v : ℕ)
    (roomy : 1024 ≤ count) (room : 2 ≤ l.handle_limit / 2)
    (small : length (sort_by_name raw) + 2 < 2 ^ 64) (caches : l.caching ≡ true) (set : v ≢ 0)
    (found : (k : ℕ) → h.from_handle key (world_of b (states k)) ≡ ok (writable, path))
    (read : l.read_dir path (world_of b (states 0)) ≡ ok raw)
    (made : (l.verifier_for path (sort_by_name raw) (world_of b (states 0))).0 ≡ v)
    (cached : (k : ℕ)
      → 0 < k
      → l.data_for_verifier path v (world_of b (states k)) ≡ some (sort_by_name raw)) where
  abbrev answered : ℕ → Listed × Bool
  answered = answer_at b fs l h key count states v

  abbrev contents : List FileInfo
  contents = sort_by_name raw

  abbrev page_at : List DirEntity → ℕ → List DirEntity × Bool
  page_at start k = read_page (entry_id b fs l path) count (l.handle_limit / 2) start k contents

  after_first : Server b
  after_first = put_world b (l.verifier_for path contents (world_of b (states 0))).1 (states 0)

  verified_first : verified b fs l path contents (states 0) ≡ some (ok (contents, v), after_first)
  unfolding verified after_first
  verified_first = rw (caches, made) refl

  load_first : load_listing b fs l path (states 0) ≡ some (ok (contents, v), after_first)
  unfolding load_listing
  load_first = rw (load_listing, read) verified_first

  listing_first : listing_at b fs l path 0 (states 0) ≡ some (ok (contents, v), after_first)
  unfolding listing_at
  listing_first = load_first

  listing_later :
      (k : ℕ) → listing_at b fs l path v (states (k + 2)) ≡ some (ok (contents, v), states (k + 2))
  unfolding listing_at
  listing_later k = rw (nonzero v set, caches, cached (k + 2) (omega arith)) refl
    where
      nonzero : (n : ℕ) → n ≢ 0 → (n == 0) ≡ false
      nonzero n h = ground arith

  answer_first : answered 0 ≡ (
    listed (page_at (dots_of b fs l path (world_of b after_first)) 0).0,
    (page_at (dots_of b fs l path (world_of b after_first)) 0).1,
  )
  answer_first =
      ap seen_page (
        on_read_dir_replies b fs l h (request_at key count v 0) (states 0) after_first writable path
          contents v roomy (found 0) listing_first refl)
      ∙ unfold reply_page in refl

  answer_later :
      (k : ℕ)
      → answered (k + 2) ≡ (
        listed (page_at (dots_of b fs l path (world_of b (states (k + 2)))) (k + 2)).0,
        (page_at (dots_of b fs l path (world_of b (states (k + 2)))) (k + 2)).1,
      )
  answer_later k =
      ap seen_page (
        on_read_dir_replies b fs l h (request_at key count v (k + 2)) (states (k + 2))
          (states (k + 2)) writable path contents v roomy (found (k + 2))
          (rw (later_verif k) (listing_later k)) (matches k))
      ∙ unfold reply_page in refl
    where
      later_verif : (n : ℕ) → (if n + 2 == 0 then 0 else v) ≡ v
      later_verif n = ground arith

      same : (c n : ℕ) → not (ltb 0 c && (ltb 0 n && not (n == n))) ≡ true
      same c n = ground arith

      matches : (n : ℕ) → matches_cookie (request_at key count v (n + 2)) v ≡ true
      matches n = rw (later_verif n) (same (n + 2) v)

  dots-listed : (w : b.World) → listed (dots_of b fs l path w) ≡ first_two
  unfolding dots_of dots listed
  dots-listed w = refl

  dots-length : (w : b.World) → length (dots_of b fs l path w) ≡ 2
  unfolding dots_of dots
  dots-length w = refl

  answers-ServesPages : ServesPages answered first_two contents
  answers-ServesPages =
      let w = world_of b after_first in
      let start = dots_of b fs l path w in
      let (p, e, page) =
        read_page-first (entry_id b fs l path) count (l.handle_limit / 2) roomy start contents small
          (omega (arith, dots-length w)) in
      record {
        first = rw answer_first (p, e ∙ ap (λ (r : Listed). r ++ p) (dots-listed w), page);
        later = λ k before. rw (answer_later k) (
            read_page-later (entry_id b fs l path) count (l.handle_limit / 2) roomy
              (dots_of b fs l path (world_of b (states (k + 2)))) contents small k before);
      }

  -- A client lists a directory with READDIR, page by page, with 1024 bytes at least for a page, from
  -- a CachingHandler whose handle limit is 4 at least. Its requests arrive in any states of the server
  -- in which the handle is that of the directory and, after the first, the handler still has the
  -- contents for the verifier of the first reply, which is not 0. Then the client ends, within one
  -- request more than there are entries, with ".", ".." and the names of the directory as it was at
  -- the first request, each once and in the order of sort.Slice; no cookie reaches 2 ^ 64.
  pub on_read_dir-whole :
      list_all (suc (length contents)) (answer_at b fs l h key count states v) 0
      ≡ some ((46 ∷ []) ∷ (46 ∷ 46 ∷ []) ∷ names_of contents)
  unfolding names
  on_read_dir-whole = list_all-ServesPages answered first_two contents answers-ServesPages

-- A request whose cookie and verifier are not 0 and whose verifier is not that of the listing is refused
-- with NFS3ERR_BAD_COOKIE, once the handle is found and the listing is read; it asks for 1024 bytes at
-- least.
pub on_read_dir-bad_cookie :
    (b : Backend) (fs : Files b) (l : Lister b) (h : UserHandler b) (obj : ReadDirArgs)
    (s t : Server b) (writable : Bool) (path : b.FilePath) (contents : List FileInfo) (v : ℕ)
    → 1024 ≤ obj.count
    → h.from_handle obj.handle (world_of b s) ≡ ok (writable, path)
    → listing_at b fs l path obj.cookie_verif s ≡ some (ok (contents, v), t)
    → 0 < obj.cookie
    → 0 < obj.cookie_verif
    → v ≢ obj.cookie_verif
    → on_read_dir b fs l h (ok obj) s ≡ some (err (nfs_plain NfsStatus.badcookie), t)
unfolding on_read_dir
on_read_dir-bad_cookie b fs l h obj s t writable path contents v roomy found listing c u differs =
    rw (enough b fs l h obj s t writable path contents v roomy found listing, found)
      (>>=-ok (get_dir_listing b fs l h obj.handle obj.cookie_verif) _ s (contents, v) t
          (listing_got b fs l h obj s t writable path contents v roomy found listing)
        ∙ rw (mismatch obj.cookie obj.cookie_verif v c u differs) refl)
  where
    mismatch :
        (c n u : ℕ) → 0 < c → 0 < n → u ≢ n → not (ltb 0 c && (ltb 0 n && not (u == n))) ≡ false
    mismatch c n u p q d = ground arith
