-- ===== src/Handlers/ReadDir.antt =====
-- nfs_onreaddir.go: READDIR.
pub mod Whole
use go_nfs.Action.{◌>>=◌, ◌>>◌, UserHandler, Action, or_raise, require}
use go_nfs.Attributes.{FileInfo, FileAttribute, to_file_attribute, write_post_op_attrs}
use go_nfs.Attributes.Apply.{attributes}
use go_nfs.Backend.{Backend}
use go_nfs.Base.{
  length, ltb, leb, ◌==◌, if◌then◌else◌, ℕ, ◌/◌, Bool, true, false, ◌&&◌, not, Option, none, some,
  List, [], ◌∷◌, ◌++◌,
}
use go_nfs.Caching.{from_handle}
use go_nfs.Changes.{Files}
use go_nfs.Errors.Chain.{Error, Result, os_is_permission, ok, err, other, nfs_error, nfs_plain}
use go_nfs.Errors.Codes.{NfsStatus, status_code}
use go_nfs.Handlers.Commit.{world_of}
use go_nfs.Handlers.Remove.{put_world}
use go_nfs.Listing.{DirEntity, dots, read_page}
use go_nfs.Xdr.{Xdr, write_bool}

-- What READDIR and READDIRPLUS use besides Backend: the rest of the interface Handler, whose
-- CachingHandler is none for a handler without one, and functions of the libraries.
pub record Lister (b : Backend) : Type 0 where
  pub handle_limit : ℕ
  pub parent : b.FilePath → Option b.FilePath  -- p[0:len(p)-1], unless p is empty
  pub read_dir : b.FilePath → b.World → Result (List FileInfo)
  pub caching : Bool  -- whether the handler is a CachingHandler
  pub verifier_for : b.FilePath → List FileInfo → b.World → ℕ × b.World
  pub data_for_verifier : b.FilePath → ℕ → b.World → Option (List FileInfo)
  pub digest : List ℕ → ℕ  -- the first 8 bytes of the SHA-256 hash, as a number

-- readDirArgs
pub record ReadDirArgs : Type 0 where
  pub handle : ℕ
  pub cookie : ℕ
  pub cookie_verif : ℕ
  pub count : ℕ

-- what follows NFS3_OK in the reply
pub record DirReply : Type 0 where
  pub attrs : Option FileAttribute
  pub verifier : ℕ
  pub entities : List DirEntity
  pub eof : Bool

-- io.ErrShortBuffer
abbrev pub err_short_buffer : Error
err_short_buffer = Error.other 1

-- a < b, for two strings
unfoldable pub name_lt : List ℕ → List ℕ → Bool
name_lt [] [] = false
name_lt [] (y ∷ ys) = true
name_lt (x ∷ xs) [] = false
name_lt (x ∷ xs) (y ∷ ys) =
    let rest = name_lt xs ys in if ltb x y then true else if ltb y x then false else rest

-- sort.Slice by name; the names in one directory are different
unfoldable pub insert_by_name : FileInfo → List FileInfo → List FileInfo
unfolding name_lt
insert_by_name c [] = c ∷ []
insert_by_name c (d ∷ ds) =
    let rest = insert_by_name c ds in if name_lt d.name c.name then d ∷ rest else c ∷ d ∷ ds

unfoldable pub sort_by_name : List FileInfo → List FileInfo
unfolding insert_by_name
sort_by_name [] = []
sort_by_name (c ∷ cs) = insert_by_name c (sort_by_name cs)

-- the bytes that hashPathAndContents writes for the contents
unfoldable pub name_bytes : List FileInfo → List ℕ
name_bytes [] = []
name_bytes (c ∷ cs) = c.name ++ name_bytes cs

-- onReadDir, its check of the cookie's verifier
abbrev pub matches_cookie : ReadDirArgs → ℕ → Bool
matches_cookie obj verifier =
    not (ltb 0 obj.cookie && (ltb 0 obj.cookie_verif && not (verifier == obj.cookie_verif)))

module _ (b : Backend) (fs : Files b) (l : Lister b) where
  -- hashPathAndContents
  unfoldable pub hash_path_and_contents : b.FilePath → List FileInfo → ℕ
  unfolding name_bytes
  hash_path_and_contents path contents = l.digest (fs.path_bytes path ++ name_bytes contents)

  -- tryStat, with its ToFileAttribute
  unfoldable pub stat_attributes : b.FilePath → b.World → Option FileAttribute
  stat_attributes path w = elim (b.lstat path w) [
    | ok info ↦ some (attributes b fs info path)
    | err e ↦ none
  ]

  -- the fileid of tryStat, or 0
  unfoldable pub file_id_or_zero : b.FilePath → b.World → ℕ
  unfolding stat_attributes
  file_id_or_zero path w = elim (stat_attributes path w) [ some a ↦ a.fileid | none ↦ 0 ]

  -- onReadDir, the entities of "." and ".."
  unfoldable pub dots_of : b.FilePath → b.World → List DirEntity
  unfolding dots file_id_or_zero
  dots_of path w =
      dots (file_id_or_zero path w)
        (elim (l.parent path) [ some up ↦ file_id_or_zero up w | none ↦ 0 ])

  -- onReadDir, the fileid of an entry
  unfoldable pub entry_id : b.FilePath → FileInfo → ℕ
  entry_id path c = (to_file_attribute c (fs.path_bytes (b.join_name path c.name))).fileid

  -- getDirListingWithVerifier, after the contents are read
  unfoldable pub verified : b.FilePath → List FileInfo → Action b (List FileInfo × ℕ)
  unfolding hash_path_and_contents
  verified path contents s =
      if l.caching
      then (let (v, w) = l.verifier_for path contents (world_of b s) in
          some (ok (contents, v), put_world b w s))
      else some (ok (contents, hash_path_and_contents path contents), s)

  -- getDirListingWithVerifier, where the verifier has no contents cached
  unfoldable pub load_listing : b.FilePath → Action b (List FileInfo × ℕ)
  unfolding verified sort_by_name
  load_listing path s = elim (l.read_dir path (world_of b s)) [
    | ok contents ↦ verified path (sort_by_name contents) s
    | err e ↦
        if os_is_permission e
        then some (err (nfs_error NfsStatus.access e), s)
        else some (err (nfs_error NfsStatus.notdir e), s)
  ]

  -- getDirListingWithVerifier, with the path of the handle
  unfoldable pub listing_at : b.FilePath → ℕ → Action b (List FileInfo × ℕ)
  unfolding load_listing
  listing_at path verifier s =
      if not (verifier == 0) && l.caching
      then elim (l.data_for_verifier path verifier (world_of b s)) [
        | some entries ↦ some (ok (entries, verifier), s)
        | none ↦ load_listing path s
      ]
      else load_listing path s

  -- getDirListingWithVerifier
  unfoldable pub get_dir_listing : UserHandler b → ℕ → ℕ → Action b (List FileInfo × ℕ)
  unfolding listing_at
  get_dir_listing h key verifier s =
      (do
        (writable, path) ← or_raise (h.from_handle key (world_of b s)) (nfs_error NfsStatus.stale)
        listing_at path verifier)
        s

  -- onReadDir, from the entities on
  unfoldable pub reply_page : b.FilePath → ReadDirArgs → List FileInfo → ℕ → Action b DirReply
  unfolding stat_attributes dots_of
  reply_page path obj contents verifier s =
      let (entities, eof) =
        read_page (entry_id path) obj.count (l.handle_limit / 2) (dots_of path (world_of b s))
          obj.cookie contents in
      some (
        ok (record {
          attrs = stat_attributes path (world_of b s);
          verifier = verifier;
          entities = entities;
          eof = eof;
        }),
        s,
      )

  -- onReadDir; `arg` is what xdr.Read makes of the request
  unfoldable pub on_read_dir : UserHandler b → Result ReadDirArgs → Action b DirReply
  unfolding get_dir_listing reply_page
  on_read_dir h arg s =
      (do
        obj ← or_raise arg (nfs_error NfsStatus.inval)
        require (leb 1024 obj.count) (nfs_error NfsStatus.toosmall err_short_buffer)
        (writable, path) ←
            or_raise (h.from_handle obj.handle (world_of b s)) (nfs_error NfsStatus.stale)
        (contents, verifier) ← get_dir_listing h obj.handle obj.cookie_verif
        require (matches_cookie obj verifier) (nfs_plain NfsStatus.badcookie)
        reply_page path obj contents verifier)
        s

module _ (x : Xdr) where
  -- xdr.Write of a readDirEntity
  unfoldable pub write_entity : DirEntity → List ℕ
  unfolding write_bool
  write_entity e =
      x.write_uint64 e.file_id
      ++ (x.write_opaque e.name ++ (x.write_uint64 e.cookie ++ write_bool x e.next))

  unfoldable pub write_entities : List DirEntity → List ℕ
  unfolding write_entity
  write_entities [] = []
  write_entities (e ∷ es) = write_entity e ++ write_entities es

  -- onReadDir, the bytes of its reply
  unfoldable pub write_dir_reply : DirReply → List ℕ
  unfolding write_post_op_attrs write_entities write_bool
  write_dir_reply r =
      x.write_uint32 (status_code NfsStatus.ok)
      ++ (write_post_op_attrs x r.attrs
          ++ (x.write_uint64 r.verifier
              ++ (write_bool x (ltb 0 (length r.entities))
                  ++ (write_entities r.entities ++ write_bool x r.eof))))
