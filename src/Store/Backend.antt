-- ===== src/Store/Backend.antt =====
-- transient/store.py: `BackendImageStore` and `BaseImageProtocol.retrieve_image`.
pub mod Retrieve
use transient.Base.{
  ◌>>=◌, Bool, true, not, ◌||◌, Option, none, some, List, [], ◌∷◌, ◌++◌, if◌then◌else◌, length,
  drop, Text, lit, text_eq, Exn, transient_error, process_error, exited, index_error,
  file_not_found, Result, ok, err,
}
use transient.Base.Dict.{Dict, lookup, insert, erase, has_key}
use transient.Store.Name.{storage_safe_encode, storage_safe_decode}
use transient.Store.Spec.{Protocol, ImageSpec, image_spec}
use transient.Store.Frontend.{is_backend_image_name}
use transient.Store.State.{Bytes, Image, Store, Tools, is_dot_name}

-- `BackendImageInfo`: its path is `file` in the backend.
pub record BackendInfo : Type 0 where
  pub file : Text
  pub identifier : Text

-- `os.path.exists(os.path.join(self.backend, file))`: the working directory is there too.
unfoldable pub path_exists : Store → Text → Bool
path_exists s file = is_dot_name file || (text_eq file (lit ".working") || has_key file s.images)

-- `open(fd, "wb+")` on the file that `lock_file` has opened does not truncate it: what was longer than
-- the new content stays behind it.
unfoldable pub write_over : Bytes → Bytes → Bytes
write_over new old = new ++ drop (length new) old

process_failed : Exn
process_failed =
    process_error (record {
      cmd = none;
      returncode = some (exited 1);
      msg = none;
      stdout = none;
      stderr = none;
    })

module _ (tools : Tools) where
  -- `BackendImageInfo(store, path)`: `qemu-img info` fails on what is no image.
  unfoldable pub backend_info : Store → Text → Result BackendInfo
  unfolding process_failed
  backend_info s file = elim (lookup file s.images) [
    | none ↦ err process_failed
    | some i ↦
        if tools.readable i.content
        then ok (record { file = file; identifier = storage_safe_decode file })
        else err process_failed
  ]

  abbrev stale_bytes : Option Bytes → Bytes
  stale_bytes none = []
  stale_bytes (some old) = old

  -- The image is stored under its name, read-only, and the temporary file is removed.
  store_image : Text → Bytes → Store → Store
  store_image file content s = record s {
    images = insert file (record { content = content; read_only = true }) s.images;
    working = erase file s.working;
  }

  abbrev converted : Text → Store → Result Bytes → Result (Unit {0}) × Store
  converted file s (err e) = (err e, s)
  converted file s (ok content) = (ok tt, store_image file content s)

  abbrev fetched : Text → Bytes → Store → Option Exn → Result (Unit {0}) × Store
  fetched file bytes s (some e) = (err e, s)
  fetched file bytes s none = converted file s (tools.convert (tools.on_disk bytes))

  -- `lock_file` on the temporary file, which is there from then on; other processes may have run
  -- before the lock is granted.
  unfoldable pub lock_working : Text → Store → Store
  lock_working file s0 =
      let s = tools.meanwhile s0 in
      record s { working = insert file (stale_bytes (lookup file s.working)) s.working }

  -- The download and the conversion, with the lock held.
  unfoldable pub fill : Protocol → Text → Text → Store → Result (Unit {0}) × Store
  unfolding store_image
  fill proto source file s =
      let (written, failure) = tools.fetch proto source in
      let bytes = write_over written (stale_bytes (lookup file s.working)) in
      fetched file bytes (record s { working = insert file bytes s.working }) failure

  -- `BaseImageProtocol.retrieve_image`: the image may have been stored before the lock was granted.
  unfoldable pub protocol_retrieve : Protocol → Text → Text → Store → Result (Unit {0}) × Store
  protocol_retrieve proto source file s0 =
      let s = lock_working file s0 in
      if path_exists s file then (ok tt, s) else fill proto source file s

  abbrev then_info : Text → Result (Unit {0}) × Store → Result BackendInfo × Store
  then_info file (err e, s) = (err e, s)
  then_info file (ok u, s) = (backend_info s file, s)

  abbrev with_spec : Result ImageSpec → Store → Result BackendInfo × Store
  with_spec (err e) s = (err e, s)
  with_spec (ok spec) s =
      let file = storage_safe_encode spec.name in
      if path_exists s file
      then (backend_info s file, s)
      else then_info file (protocol_retrieve spec.source_proto spec.source file s)

  -- `BackendImageStore.retrieve_image`
  unfoldable pub retrieve_image : Text → Store → Result BackendInfo × Store
  retrieve_image text s = with_spec (image_spec text) s

  -- The loop of `backend_image_list` over the files of the backend.
  list_from : Store → Option Text → Dict Image → Result (List BackendInfo)
  list_from s wanted [] = ok []
  list_from s wanted ((file, _) ∷ rest) =
      let more = list_from s wanted rest in
      if not (is_backend_image_name file) then more else do
        info ← backend_info s file
        infos ← more
        ok (elim wanted [
          | none ↦ info ∷ infos
          | some name ↦ if text_eq info.identifier name then info ∷ infos else infos
        ])

  -- `backend_image_list`
  unfoldable pub backend_image_list : Option Text → Store → Result (List BackendInfo)
  unfolding list_from
  backend_image_list wanted s = list_from s wanted s.images

  -- `commit_vmstate`, with the content of `state.images[0]`
  abbrev committed : Text → Store → Result Bytes → Result BackendInfo × Store
  committed file s (err e) = (err e, s)
  committed file s (ok content) =
      let s' = record s {
        images = insert file (record { content = content; read_only = true }) s.images;
        working = erase file s.working;
      } in
      (backend_info s' file, s')

  unfoldable pub commit_vmstate : List Bytes → Text → Store → Result BackendInfo × Store
  commit_vmstate [] name s = (err index_error, s)
  commit_vmstate (primary ∷ _) name s0 =
      let file = storage_safe_encode name in
      let s = lock_working file s0 in
      if path_exists s file
      then (
        err (transient_error (lit "An image with the name '" ++ (name ++ lit "' already exists"))),
        s,
      )
      else committed file s (tools.convert primary)

-- `delete_image`
unfoldable pub delete_image : Text → Store → Result (Unit {0}) × Store
delete_image file s =
    if has_key file s.images
    then (ok tt, record s { images = erase file s.images })
    else (err file_not_found, s)

-- `contains_image`
unfoldable pub contains_image : Text → Store → Bool
contains_image name s = path_exists s (storage_safe_encode name)
