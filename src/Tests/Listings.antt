-- ===== src/Tests/Listings.antt =====
-- Directory listings at concrete values: a directory of two files, one to a page.
use go_nfs.Handlers.ReadDir.Whole.{answer_at}
use go_nfs.Base.{ℕ}
use go_nfs.Attributes.{FileInfo}
use go_nfs.Base.{length, ℕ, suc, ◌≡◌, refl, true, false, none, some, List, [], ◌∷◌, arith}
use go_nfs.Changes.{Files}
use go_nfs.Errors.Chain.{ok, err, nfs_plain}
use go_nfs.Errors.Codes.{NfsStatus}
use go_nfs.Handlers.ReadDir.{
  Lister, ReadDirArgs, sort_by_name, hash_path_and_contents, verified, load_listing, listing_at,
  on_read_dir,
}
use go_nfs.Handlers.ReadDir.Whole.{on_read_dir-whole, on_read_dir-bad_cookie}
use go_nfs.Handlers.ReadDirPlus.{ReadDirPlusArgs}
use go_nfs.Handlers.ReadDirPlus.PlusPages.{plus_page, list_all-read_plus_page}
use go_nfs.Listing.Client.{names_of, list_all}
use go_nfs.Tests.{disk, server, exports}
use go_nfs.Times.{ℤ}

abbrev plain_file : List ℕ → FileInfo
plain_file name = record {
  name = name;
  mode_bits = 420;
  is_directory = false;
  bytes = 3;
  modified = ℤ.pos 0;
  sys = none;
}

abbrev disk_files : Files disk
disk_files = record {
  file_info = λ i. plain_file [];
  path_bytes = λ path. [];
  open_wo = λ path w. (ok path, w);
  truncate = λ f n w. (none, w);
}

abbrev two_names : List FileInfo
two_names = plain_file (98 ∷ []) ∷ plain_file (97 ∷ []) ∷ []

abbrev sorted_names : List FileInfo
sorted_names = plain_file (97 ∷ []) ∷ plain_file (98 ∷ []) ∷ []

abbrev lister : Lister disk
lister = record {
  handle_limit = 4;
  parent = λ path. none;
  read_dir = λ path w. ok two_names;
  caching = true;
  verifier_for = λ path cs w. (77, w);
  data_for_verifier = λ path v w. some sorted_names;
  digest = λ bytes. 5;
}

two_names-sorted : sort_by_name two_names ≡ sorted_names
unfolding sort_by_name
two_names-sorted = refl

on_read_dir-whole_example :
    list_all
      (suc (length (sort_by_name two_names)))
      (answer_at disk disk_files lister exports 6 1024 (λ k. server) 77)
      0
    ≡ some ((46 ∷ []) ∷ (46 ∷ 46 ∷ []) ∷ names_of (sort_by_name two_names))
on_read_dir-whole_example =
    on_read_dir-whole disk disk_files lister exports 6 1024 (λ k. server) true 6 two_names 77
      (omega arith) (omega arith) (rw two_names-sorted (omega arith)) refl (omega arith) (λ k. refl)
      refl refl (λ k p. rw two_names-sorted refl)

abbrev late_request : ReadDirArgs
late_request = record { handle = 6; cookie = 2; cookie_verif = 4; count = 2048 }

abbrev plain_lister : Lister disk
plain_lister = record lister { caching = false }

on_read_dir-bad_cookie_example :
    on_read_dir disk disk_files plain_lister exports (ok late_request) server
    ≡ some (err (nfs_plain NfsStatus.badcookie), server)
on_read_dir-bad_cookie_example =
    on_read_dir-bad_cookie disk disk_files plain_lister exports late_request server server true 6
      sorted_names 5 (omega arith) refl
      (unfold listing_at load_listing verified hash_path_and_contents sort_by_name in refl)
      (omega arith) (omega arith) (omega arith)

abbrev plus_request : ReadDirPlusArgs
plus_request = record {
  handle = 6;
  cookie = 0;
  cookie_verif = 0;
  dir_count = 512;
  max_count = 4096;
}

list_all-read_plus_page_example :
    list_all 3
      (λ k.
        plus_page disk disk_files lister exports 6 two_names
          (record plus_request { cookie = k })
          (k ∷ []))
      0
    ≡ some ((46 ∷ []) ∷ (46 ∷ 46 ∷ []) ∷ names_of two_names)
list_all-read_plus_page_example =
    list_all-read_plus_page disk disk_files lister exports 6 two_names plus_request (λ k. k ∷ [])
      (omega arith) (omega arith) (omega arith) (omega arith)
