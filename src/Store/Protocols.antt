-- ===== src/Store/Protocols.antt =====
-- transient/store.py: what the three image protocols write. The network, the files of the user, JSON, tar
-- and the decompressors are parameters.
pub mod Choice
pub mod Vagrant
use mathlib.Core.List.{reverse}
use transient.Base.{
  ℕ, Bool, true, false, not, Option, none, some, List, [], ◌∷◌, ◌++◌, if◌then◌else◌, drop, find?,
  flat_map, Text, lit, text_eq, starts_with, ends_with, cut, Exn, transient_error, value_error,
  key_error, index_error, assertion_error, os_error, Result, ok, err, ◌>>=◌,
}
use transient.Base.Decimal.{read_nat}
use transient.Store.Spec.{Protocol, vagrant, http, file}
use transient.Store.State.{Bytes}
use transient.Stream.{Format, StreamDecompressor, decompress, copy_with_progress}

-- A response: whether its status is an error, the header content-length, the blocks that `iter_content`
-- gives, and the exception that ends them, if one does.
pub record Response : Type 0 where
  pub is_error : Bool
  pub content_length : Option Text
  pub blocks : List Bytes
  pub failure : Option Exn

pub record Provider : Type 0 where
  pub name : Text
  pub download_url : Text

pub record VersionInfo : Type 0 where
  pub version : Text
  pub providers : List Provider

-- What the vagrant cloud tells of a box.
pub record BoxInfo : Type 0 where
  pub tag : Text
  pub versions : List VersionInfo

-- A member of an archive; its contents are none where `extractfile` gives None.
pub record Member : Type 0 where
  pub name : Text
  pub contents : Option (List Bytes)

pub record Sources : Type 0 where
  pub get : Text → Result Response
  pub loads : Bytes → Result BoxInfo
  pub open_file : Text → Result (List Bytes)
  pub getmembers : Bytes → Result (List Member)
  pub inflate : Format → List Bytes → Bytes → Result Bytes

-- What a protocol has written in its destination, and the exception that stopped it.
abbrev pub Fetched : Type 0
Fetched = Bytes × Option Exn

abbrev pub failed : Exn → Fetched
failed e = ([], some e)

abbrev pub fetched_from : {A : Type 0} → Result A → (A → Fetched) → Fetched
fetched_from (err e) f = failed e
fetched_from (ok a) f = f a

-- `raise_for_status`: `HTTPError` is an `OSError`.
abbrev pub raise_for_status : Response → Result Response
raise_for_status r = if r.is_error then err os_error else ok r

-- `int(stream.headers["content-length"])`, where the header is there
abbrev pub total_length : Response → Result (Option ℕ)
total_length r = elim r.content_length [
  | none ↦ ok none
  | some t ↦ elim (read_nat t) [ none ↦ err value_error | some n ↦ ok (some n) ]
]

-- The blocks as they come, up to an exception
abbrev pub content : Response → Result Bytes
content r = elim r.failure [ some e ↦ err e | none ↦ ok (flat_map (λ b. b) r.blocks) ]

abbrev pub copied : Result (Unit {0}) × Bytes × List ℕ → Fetched
copied (ok u, written, shown) = (written, none)
copied (err e, written, shown) = (written, some e)

-- `spec.source.split(":", 1)`, and the version without its `v`
unfoldable pub box_and_version : Text → Result (Text × Text)
unfolding cut starts_with
box_and_version source = elim (cut b':' source) [
  | none ↦ err (
      transient_error (
        lit "No image named "
        ++ (source
            ++ lit " found in the backend, and no version provided, so it cannot be downloaded.")))
  | some (box, version) ↦
      ok (box, (if starts_with version (lit "v") then drop 1 version else version))
]

-- The inner loop of `__vagrant_box_url`
unfoldable pub libvirt_url : List Provider → Option Text
unfolding text_eq
libvirt_url [] = none
libvirt_url (p ∷ providers) =
    if not (text_eq p.name (lit "libvirt")) then libvirt_url providers else some p.download_url

-- Its outer loop: a version without such a provider is passed over.
unfoldable pub version_url : Text → List VersionInfo → Option Text
unfolding libvirt_url text_eq
version_url version [] = none
version_url version (info ∷ versions) =
    let later = version_url version versions in
    if not (text_eq info.version version)
    then later
    else elim (libvirt_url info.providers) [ some url ↦ some url | none ↦ later ]

-- `__vagrant_box_url`
unfoldable pub vagrant_box_url : Text → BoxInfo → Result Text
unfolding version_url
vagrant_box_url version box_info = elim (version_url version box_info.versions) [
  | some url ↦ ok url
  | none ↦ err (
      transient_error (
        lit "No version '"
        ++ (version ++ (lit "' available for " ++ (box_info.tag ++ lit " with provider libvirt")))))
]

-- `extractfile`, of a name: the last member of that name, as a stream
unfoldable pub extractfile : Text → List Member → Result (List Bytes)
extractfile name members = elim (find? (λ m. text_eq m.name name) (reverse members)) [
  | none ↦ err key_error
  | some m ↦ elim m.contents [ none ↦ err assertion_error | some stream ↦ ok stream ]
]

-- The name is that of the first member whose name ends with "box.img".
unfoldable pub box_image : List Member → Result (List Bytes)
unfolding extractfile
box_image members = elim (find? (λ m. ends_with m.name (lit "box.img")) members) [
  | none ↦ err index_error
  | some m ↦ extractfile m.name members
]

module _ (sources : Sources) where
  -- The loop of `HttpImageProtocol._do_retrieve_image`
  unfoldable pub write_blocks : StreamDecompressor → Bytes → List Bytes → Option Exn → Fetched
  unfolding decompress
  write_blocks d written [] failure = (written, failure)
  write_blocks d written (block ∷ blocks) failure =
      let (out, d') = decompress sources.inflate d block in
      elim out [
        | err e ↦ (written, some e)
        | ok contents ↦ write_blocks d' (written ++ contents) blocks failure
      ]

  -- `HttpImageProtocol._do_retrieve_image`
  unfoldable pub retrieve_http : Text → Fetched
  unfolding write_blocks
  retrieve_http source =
      fetched_from
        (sources.get source >>= λ r. raise_for_status r >>= λ r'. total_length r' >>= λ n. ok r')
        (λ stream.
          write_blocks (record { method = none; fed = [] }) [] stream.blocks stream.failure)

  -- `FileImageProtocol._do_retrieve_image`
  unfoldable pub retrieve_file : Text → Fetched
  unfolding copy_with_progress
  retrieve_file source =
      fetched_from (sources.open_file source)
        (λ blocks. copied (copy_with_progress sources.inflate true blocks))

  -- `__download_vagrant_info`
  unfoldable pub download_vagrant_info : Text → Result BoxInfo
  download_vagrant_info image_name =
      sources.get (lit "https://app.vagrantup.com/api/v1/box/" ++ image_name) >>= λ response.
      content response >>= λ body.
      if response.is_error
      then err (
          transient_error (
            lit "Unable to download vagrant image '"
            ++ (image_name ++ lit "' info. Maybe invalid image?")))
      else sources.loads body

  -- The download of the box into a temporary file
  unfoldable pub download_box : Text → Result Bytes
  download_box url = sources.get url >>= λ r.
      raise_for_status r >>= λ stream. total_length stream >>= λ n. content stream

  -- What `VagrantImageProtocol._do_retrieve_image` copies
  unfoldable pub vagrant_stream : Text → Result (List Bytes)
  unfolding box_and_version download_vagrant_info vagrant_box_url download_box box_image
  vagrant_stream source = box_and_version source >>= λ named.
      download_vagrant_info named.0 >>= λ box_info. vagrant_box_url named.1 box_info >>= λ box_url.
      download_box box_url >>= λ box_file.
      sources.getmembers box_file >>= λ members. box_image members

  -- `VagrantImageProtocol._do_retrieve_image`
  unfoldable pub retrieve_vagrant : Text → Fetched
  unfolding vagrant_stream copy_with_progress
  retrieve_vagrant source =
      fetched_from (vagrant_stream source)
        (λ stream. copied (copy_with_progress sources.inflate false stream))

  -- `_do_retrieve_image`, of the protocol of a specification
  unfoldable pub fetch : Protocol → Text → Fetched
  unfolding retrieve_vagrant retrieve_http retrieve_file
  fetch vagrant source = retrieve_vagrant source
  fetch http source = retrieve_http source
  fetch file source = retrieve_file source
