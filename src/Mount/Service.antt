-- ===== src/Mount/Service.antt =====
-- mount.go and nfs.go: which procedures the server has.
use go_nfs.Base.{true, false, Bool-cases, inl, inr, ap, sym, ◌&&◌, ◌∙◌, refl, [], arith}
use go_nfs.Rpc.{register_message_handler}
use go_nfs.Mount.{
  NfsHandlers, nfs_table, mount_table, on_null, on_mount_null, on_mount, on_umount,
  mount_service_id, nfs_service_id, init_nfs, init_mount,
}
use go_nfs.Xdr.{Xdr, Reader}
use go_nfs.Base.{lookup, zero, suc, ◌+◌, get_elem?}
use go_nfs.Base.{ap}
use go_nfs.Base.{
  ◌==◌, if◌then◌else◌, ℕ, ◌≡◌, refl, ◌∙◌, Bool, false, ◌&&◌, Option, none, some, List, [], ◌∷◌,
}
use go_nfs.Mount.{register_or_skip, register_each}
use go_nfs.Rpc.{RpcHeader, HandleFunc, Handlers, handler_for, register_message_handler}

and_false : (a c : Bool) → c ≡ false → (a && c) ≡ false
and_false a c h = ground arith

false_and : (a c : Bool) → a ≡ false → (a && c) ≡ false
false_and a c h = ground arith

module _ {S : Type 0} where
  register_or_skip-found :
      (protocol proc : ℕ) (h : HandleFunc S) (hs : Handlers S) (prog p : ℕ)
      → handler_for (register_or_skip protocol proc h hs) prog p
        ≡ elim (handler_for hs protocol proc) [
          | some g ↦ handler_for hs prog p
          | none ↦ if (protocol == prog) && (proc == p) then some h else handler_for hs prog p
        ]
  unfolding register_or_skip register_message_handler handler_for
  register_or_skip-found protocol proc h hs prog p = go (handler_for hs protocol proc) refl
    where
      go :
          (o : Option (HandleFunc S))
          → handler_for hs protocol proc ≡ o
          → handler_for (register_or_skip protocol proc h hs) prog p
            ≡ elim (handler_for hs protocol proc) [
              | some g ↦ handler_for hs prog p
              | none ↦ if (protocol == prog) && (proc == p) then some h else handler_for hs prog p
            ]
      go none e = rw (register_or_skip, register_message_handler, e) refl
      go (some g) e = rw (register_or_skip, register_message_handler, e) refl

  register_or_skip-other :
      (protocol proc : ℕ) (h : HandleFunc S) (hs : Handlers S) (prog p : ℕ)
      → ((protocol == prog) && (proc == p)) ≡ false
      → handler_for (register_or_skip protocol proc h hs) prog p ≡ handler_for hs prog p
  register_or_skip-other protocol proc h hs prog p e =
      register_or_skip-found protocol proc h hs prog p ∙ go (handler_for hs protocol proc)
    where
      go :
          (o : Option (HandleFunc S))
          → elim o as (λ _. Option (HandleFunc S)) [
            | some g ↦ handler_for hs prog p
            | none ↦ if (protocol == prog) && (proc == p) then some h else handler_for hs prog p
          ]
            ≡ handler_for hs prog p
      go none = rw e refl
      go (some g) = refl

  or_else : Option (HandleFunc S) → Option (HandleFunc S) → Option (HandleFunc S)
  or_else none r = r
  or_else (some g) r = some g

  register_or_skip-own :
      (protocol q : ℕ) (h : HandleFunc S) (hs : Handlers S)
      → handler_for (register_or_skip protocol q h hs) protocol q
        ≡ or_else (handler_for hs protocol q) (some h)
  unfolding or_else
  register_or_skip-own protocol q h hs =
      register_or_skip-found protocol q h hs protocol q ∙ go (handler_for hs protocol q) refl
    where
      both : (m n : ℕ) → ((m == m) && (n == n)) ≡ true
      both m n = ground arith

      go :
          (o : Option (HandleFunc S))
          → handler_for hs protocol q ≡ o
          → elim o as (λ _. Option (HandleFunc S)) [
            | some g ↦ handler_for hs protocol q
            | none ↦
                if (protocol == protocol) && (q == q) then some h else handler_for hs protocol q
          ]
            ≡ or_else o (some h)
      go none e = rw (both protocol q) refl
      go (some g) e = e

  -- the handlers of an init function, the first for a number before later ones
  register_each-lookup :
      (protocol : ℕ) (ps : List (ℕ × HandleFunc S)) (hs : Handlers S) (p : ℕ)
      → handler_for (register_each protocol ps hs) protocol p
        ≡ or_else (handler_for hs protocol p) (lookup p ps)
  unfolding register_each lookup or_else
  register_each-lookup protocol [] hs p = go (handler_for hs protocol p)
    where
      go : (o : Option (HandleFunc S)) → o ≡ or_else o none
      go none = refl
      go (some g) = refl
  register_each-lookup protocol ((q, h) ∷ ps) hs p =
      register_each-lookup protocol ps (register_or_skip protocol q h hs) p
      ∙ elim (Bool-cases (q == p)) [
        | inl here ↦
            let same : q ≡ p = ground arith in
            ap
              (λ (r : ℕ).
                or_else (handler_for (register_or_skip protocol q h hs) protocol r) (lookup p ps))
              (sym same)
            ∙ ap (λ (o : Option (HandleFunc S)). or_else o (lookup p ps))
                (register_or_skip-own protocol q h hs)
            ∙ or_assoc (handler_for hs protocol q) h (lookup p ps)
            ∙ ap (λ (r : ℕ). or_else (handler_for hs protocol r) (some h)) same
            ∙ rw here refl
        | inr there ↦
            ap (λ (o : Option (HandleFunc S)). or_else o (lookup p ps))
              (register_or_skip-other protocol q h hs protocol p
                (and_false (protocol == protocol) (q == p) there))
            ∙ rw there refl
      ]
    where
      or_assoc :
          (o : Option (HandleFunc S)) (h : HandleFunc S) (r : Option (HandleFunc S))
          → or_else (or_else o (some h)) r ≡ or_else o (some h)
      or_assoc none h r = refl
      or_assoc (some g) h r = refl

  register_each-other :
      (protocol prog : ℕ) (ps : List (ℕ × HandleFunc S)) (hs : Handlers S) (p : ℕ)
      → (protocol == prog) ≡ false
      → handler_for (register_each protocol ps hs) prog p ≡ handler_for hs prog p
  unfolding register_each
  register_each-other protocol prog [] hs p h = refl
  register_each-other protocol prog ((q, f) ∷ qs) hs p h =
      register_each-other protocol prog qs (register_or_skip protocol q f hs) p h
      ∙ register_or_skip-other protocol q f hs prog p (false_and (protocol == prog) (q == p) h)

  -- the elements with their positions, from `k` on
  numbered : ℕ → List (HandleFunc S) → List (ℕ × HandleFunc S)
  numbered k [] = []
  numbered k (f ∷ fs) = (k, f) ∷ numbered (suc k) fs

  lookup-numbered :
      (fs : List (HandleFunc S)) (k p : ℕ) → lookup (k + p) (numbered k fs) ≡ get_elem? fs p
  unfolding numbered lookup
  lookup-numbered [] k p = refl
  lookup-numbered (f ∷ fs) k zero = ground arith
  lookup-numbered (f ∷ fs) k (suc p) =
      let later : (k == k + suc p) ≡ false = ground arith in
      let next : suc k + p ≡ k + suc p = omega arith in
      rw later
        (ap (λ (n : ℕ). lookup n (numbered (suc k) fs)) (sym next) ∙ lookup-numbered fs (suc k) p)

  -- The procedures of version 3 of NFS in the order of RFC 1813, section 3.3, from 0 on.
  abbrev pub rfc_1813 : NfsHandlers S → List (HandleFunc S)
  rfc_1813 n =
      on_null ∷ n.on_get_attr ∷ n.on_set_attr ∷ n.on_lookup ∷ n.on_access ∷ n.on_read_link
      ∷ n.on_read ∷ n.on_write ∷ n.on_create ∷ n.on_mkdir ∷ n.on_symlink ∷ n.on_mknod ∷ n.on_remove
      ∷ n.on_rmdir ∷ n.on_rename ∷ n.on_link ∷ n.on_read_dir ∷ n.on_read_dir_plus ∷ n.on_fs_stat
      ∷ n.on_fs_info ∷ n.on_path_conf ∷ n.on_commit ∷ []

  nfs_table-numbered : (n : NfsHandlers S) → nfs_table n ≡ numbered 0 (rfc_1813 n)
  unfolding nfs_table numbered
  nfs_table-numbered n = refl

  -- After the two init functions, of which that of mount.go runs first, the handler of each number of
  -- NFS is the one of the procedure that RFC 1813 gives that number, from NULL, which is 0, to COMMIT,
  -- which is 21, and no other number has one; and the mount protocol has onMountNull under 0, onMount
  -- under 1 and onUMount under 3, and no other.
  pub handler_for-init_nfs :
      (x : Xdr) (read_opaque : Reader (List ℕ)) (mount : RpcHeader → List ℕ → S → (ℕ × List ℕ) × S)
      (to_root : S → List ℕ × S) (n : NfsHandlers S) (p : ℕ)
      → let hs = init_nfs n (init_mount x read_opaque mount to_root []) in
        (handler_for hs nfs_service_id p ≡ get_elem? (rfc_1813 n) p)
        × (handler_for hs mount_service_id p ≡ (
            if p == 0
            then some on_mount_null
            else if p == 1
            then some (on_mount x read_opaque mount to_root)
            else if p == 3
            then some (on_umount x read_opaque)
            else none))
  unfolding init_nfs init_mount handler_for or_else lookup
  handler_for-init_nfs x read_opaque mount to_root n p = (
    register_each-lookup nfs_service_id (nfs_table n) (init_mount x read_opaque mount to_root []) p
        ∙ ap (λ (o : Option (HandleFunc S)). or_else o (lookup p (nfs_table n)))
            (register_each-other mount_service_id nfs_service_id
              (mount_table x read_opaque mount to_root) [] p refl)
        ∙ ap (λ (ps : List (ℕ × HandleFunc S)). lookup p ps) (nfs_table-numbered n)
        ∙ ap (λ (k : ℕ). lookup k (numbered 0 (rfc_1813 n))) from_zero
        ∙ lookup-numbered (rfc_1813 n) 0 p,
    register_each-other nfs_service_id mount_service_id (nfs_table n)
          (init_mount x read_opaque mount to_root []) p refl
        ∙ register_each-lookup mount_service_id (mount_table x read_opaque mount to_root) [] p
        ∙ mount_numbers p,
  )
    where
      from_zero : p ≡ 0 + p
      from_zero = omega arith

      flipped : (k p : ℕ) → (k == p) ≡ (p == k)
      flipped k p = ground arith

      mount_numbers :
          (p : ℕ)
          → lookup p (mount_table x read_opaque mount to_root) ≡ (
              if p == 0
              then some on_mount_null
              else if p == 1
              then some (on_mount x read_opaque mount to_root)
              else if p == 3
              then some (on_umount x read_opaque)
              else none)
      mount_numbers p = rw (lookup, flipped 0 p, flipped 1 p, flipped 3 p) refl
