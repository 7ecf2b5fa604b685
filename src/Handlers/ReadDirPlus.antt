-- ===== src/Handlers/ReadDirPlus.antt =====
-- nfs_onreaddirplus.go: READDIRPLUS, which also gives the attributes and the handle of each entry.
pub mod PlusPages
use go_nfs.Action.{◌>>=◌, ◌>>◌, UserHandler, Action, or_raise, require}
use go_nfs.Attributes.{
  FileInfo, FileAttribute, to_file_attribute, write_attribute, write_post_op_attrs,
}
use go_nfs.Backend.{Backend}
use go_nfs.Base.{
  length, ltb, ◌==◌, if◌then◌else◌, ℕ, ◌+◌, ◌/◌, Bool, true, false, ◌||◌, not, Option, none, some,
  List, [], ◌∷◌, ◌++◌,
}
use go_nfs.Caching.{to_handle, from_handle}
use go_nfs.Changes.{Files}
use go_nfs.Errors.Chain.{Result, ok, nfs_error, nfs_plain}
use go_nfs.Errors.Codes.{NfsStatus, status_code}
use go_nfs.Handlers.Commit.{world_of}
use go_nfs.Handlers.ReadDir.{
  Lister, ReadDirArgs, matches_cookie, stat_attributes, file_id_or_zero, get_dir_listing,
}
use go_nfs.Handlers.Remove.{put_world}
use go_nfs.Words.{u32, u64}
use go_nfs.Xdr.{Xdr, write_bool}

-- readDirPlusArgs
pub record ReadDirPlusArgs : Type 0 where
  pub handle : ℕ
  pub cookie : ℕ
  pub cookie_verif : ℕ
  pub dir_count : ℕ
  pub max_count : ℕ

-- readDirPlusEntity
pub record PlusEntity : Type 0 where
  pub file_id : ℕ
  pub name : List ℕ
  pub cookie : ℕ
  pub attributes : Option FileAttribute
  pub handle : Option ℕ
  pub next : Bool

-- what follows NFS3_OK in the reply
pub record PlusReply : Type 0 where
  pub attrs : Option FileAttribute
  pub verifier : ℕ
  pub entities : List PlusEntity
  pub eof : Bool

-- entities[len(entities)-1].Next = false
unfoldable pub close_last_plus : List PlusEntity → List PlusEntity
close_last_plus [] = []
close_last_plus (e ∷ []) = record e { next = false } ∷ []
close_last_plus (e ∷ f ∷ es) = e ∷ close_last_plus (f ∷ es)

module _ (b : Backend) (fs : Files b) (l : Lister b) (h : UserHandler b) where
  -- the entities of "." and ".."
  unfoldable pub plus_dots : b.FilePath → b.World → List PlusEntity
  unfolding file_id_or_zero stat_attributes
  plus_dots path w =
      record {
        file_id = file_id_or_zero b fs l path w;
        name = 46 ∷ [];
        cookie = 0;
        attributes = stat_attributes b fs l path w;
        handle = none;
        next = true;
      }
      ∷ record {
        file_id = elim (l.parent path) [ some up ↦ file_id_or_zero b fs l up w | none ↦ 0 ];
        name = 46 ∷ 46 ∷ [];
        cookie = 1;
        attributes = none;
        handle = none;
        next = true;
      }
      ∷ []

  module _ (path : b.FilePath) (obj : ReadDirPlusArgs) where
    -- the entity of the i-th entry, with the handle that ToHandle gives
    unfoldable pub plus_entity : ℕ → FileInfo → ℕ → PlusEntity
    unfolding to_file_attribute
    plus_entity i c key =
        let attrs = to_file_attribute c (fs.path_bytes (b.join_name path c.name)) in
        record {
          file_id = attrs.fileid;
          name = c.name;
          cookie = u64 (i + 2);
          attributes = some attrs;
          handle = some key;
          next = true;
        }

    -- the loop of onReadDirPlus from the i-th entry on: what it appends, eof, and the world it leaves
    unfoldable pub fill_plus :
        ℕ → Bool → ℕ → ℕ → ℕ → List FileInfo → b.World → List PlusEntity × Bool × b.World
    unfolding plus_entity
    fill_plus i started dir_bytes bytes len [] w = ([], true, w)
    fill_plus i started dir_bytes bytes len (c ∷ cs) w =
        let dir_bytes' = u32 (dir_bytes + u32 (length c.name + 20)) in
        let bytes' = u32 (bytes + 512) in
        let (key, w') = h.to_handle (b.join_name path c.name) w in
        let more = fill_plus (i + 1) true dir_bytes' bytes' (len + 1) cs w' in
        let skipped = fill_plus (i + 1) (u64 (i + 2) == obj.cookie) dir_bytes bytes len cs w in
        if started
        then (if ltb obj.dir_count dir_bytes'
              || (ltb obj.max_count bytes' || ltb (l.handle_limit / 2) len)
            then ([], false, w)
            else (plus_entity i c key ∷ more.0, more.1, more.2))
        else skipped

    -- onReadDirPlus from the entities of "." and ".." to the end of the loop
    unfoldable pub read_plus_page : List FileInfo → b.World → List PlusEntity × Bool × b.World
    unfolding fill_plus plus_dots close_last_plus
    read_plus_page contents w =
        let started = obj.cookie == 0 in
        let first = if started then plus_dots path w else [] in
        let (es, eof, w') = fill_plus 0 started 0 100 (length first) contents w in
        (close_last_plus (first ++ es), eof, w')

  -- onReadDirPlus, from the entities on
  unfoldable pub reply_plus_page :
      b.FilePath → ReadDirPlusArgs → List FileInfo → ℕ → Action b PlusReply
  unfolding read_plus_page stat_attributes
  reply_plus_page path obj contents verifier s =
      let (entities, eof, w) = read_plus_page path obj contents (world_of b s) in
      some (
        ok (record {
          attrs = stat_attributes b fs l path w;
          verifier = verifier;
          entities = entities;
          eof = eof;
        }),
        put_world b w s,
      )

  -- the arguments that READDIR would check
  abbrev pub as_read_dir : ReadDirPlusArgs → ReadDirArgs
  as_read_dir obj = record {
    handle = obj.handle;
    cookie = obj.cookie;
    cookie_verif = obj.cookie_verif;
    count = obj.max_count;
  }

  -- onReadDirPlus; `arg` is what xdr.Read makes of the request
  unfoldable pub on_read_dir_plus : Result ReadDirPlusArgs → Action b PlusReply
  unfolding reply_plus_page get_dir_listing
  on_read_dir_plus arg s =
      (do
        obj ← or_raise arg (nfs_error NfsStatus.inval)
        require (not (ltb obj.dir_count 512 || ltb obj.max_count 4096))
            (nfs_plain NfsStatus.toosmall)
        (writable, path) ←
            or_raise (h.from_handle obj.handle (world_of b s)) (nfs_error NfsStatus.stale)
        (contents, verifier) ← get_dir_listing b fs l h obj.handle obj.cookie_verif
        require (matches_cookie (as_read_dir obj) verifier) (nfs_plain NfsStatus.badcookie)
        reply_plus_page path obj contents verifier)
        s

module _ (x : Xdr) (write_handle : ℕ → List ℕ) where
  -- an optional pointer, after a Boolean
  unfoldable pub write_pointer : {A : Type 0} → (A → List ℕ) → Option A → List ℕ
  unfolding write_bool
  write_pointer put none = write_bool x false
  write_pointer put (some a) = write_bool x true ++ put a

  -- xdr.Write of a readDirPlusEntity
  unfoldable pub write_plus_entity : PlusEntity → List ℕ
  unfolding write_pointer write_attribute write_bool
  write_plus_entity e =
      x.write_uint64 e.file_id
      ++ (x.write_opaque e.name
          ++ (x.write_uint64 e.cookie
              ++ (write_pointer (write_attribute x) e.attributes
                  ++ (write_pointer write_handle e.handle ++ write_bool x e.next))))

  unfoldable pub write_plus_entities : List PlusEntity → List ℕ
  unfolding write_plus_entity
  write_plus_entities [] = []
  write_plus_entities (e ∷ es) = write_plus_entity e ++ write_plus_entities es

  -- onReadDirPlus, the bytes of its reply
  unfoldable pub write_plus_reply : PlusReply → List ℕ
  unfolding write_post_op_attrs write_plus_entities write_bool
  write_plus_reply r =
      x.write_uint32 (status_code NfsStatus.ok)
      ++ (write_post_op_attrs x r.attrs
          ++ (x.write_uint64 r.verifier
              ++ (write_bool x (ltb 0 (length r.entities))
                  ++ (write_plus_entities r.entities ++ write_bool x r.eof))))
