-- ===== src/Store/Protocols/Vagrant.antt =====
-- transient/store.py: where what `VagrantImageProtocol` writes comes from.
use mathlib.Core.List.{reverse}
use transient.Base.{
  ◌≡◌, refl, sym, ap, ◌∙◌, inl, inr, Bool, true, false, none, some, List, ◌∷◌, ◌++◌, if◌then◌else◌,
  Option-cases, drop, find?, flat_map, Text, lit, text_eq, starts_with, ends_with, has_char, cut,
  Exn, os_error, Result, ok, err, >>=-eq-ok, Result-cases,
}
use transient.Base.{ok-injective}
use transient.Store.State.{Bytes}
use transient.Stream.Copy.{before_end, concat, copy_with_progress_plain}
use transient.Store.Protocols.{
  Response, Provider, VersionInfo, BoxInfo, Member, Sources, Fetched, raise_for_status,
  total_length, content, box_and_version, download_vagrant_info, version_url, vagrant_box_url,
  box_image, extractfile, download_box, vagrant_stream, retrieve_vagrant,
}
use transient.Store.Protocols.Choice.{
  First, is_libvirt, offers, find?-First, cut-eq-some, version_url-First,
}

-- `version`, without the "v" that it may begin with
abbrev pub without_v : Text → Text
without_v version = if starts_with version (lit "v") then drop 1 version else version

module _ (sources : Sources) where
  -- A response without an error, with its whole content
  pub record Downloads (url : Text) (bytes : Bytes) : Type 0 where
    pub response : Response
    pub answered : sources.get url ≡ ok response
    pub no_error : response.is_error ≡ false
    pub whole : response.failure ≡ none
    pub same : bytes ≡ flat_map (λ b. b) response.blocks

  -- Where the blocks of an image come from.
  pub record Provenance (source : Text) (blocks : List Bytes) : Type 0 where
    pub box : Text
    pub version : Text
    pub box_info : BoxInfo
    pub info : VersionInfo
    pub provider : Provider
    pub member : Member
    pub last : Member
    pub members : List Member
    pub body : Bytes
    pub box_file : Bytes
    pub named : source ≡ box ++ (b':' ∷ version)
    pub no_colon : has_char b':' box ≡ false
    pub told : Downloads (lit "https://app.vagrantup.com/api/v1/box/" ++ box) body
    pub loaded : sources.loads body ≡ ok box_info
    pub in_version : First (offers (without_v version)) box_info.versions info
    pub by_provider : First is_libvirt info.providers provider
    pub downloaded : Downloads provider.download_url box_file
    pub unpacked : sources.getmembers box_file ≡ ok members
    pub in_archive : First (λ m. ends_with m.name (lit "box.img")) members member
    pub of_that_name : First (λ m. text_eq m.name member.name) (reverse members) last
    pub extracted : last.contents ≡ some blocks

  box_and_version_lem :
      (source box version : Text)
      → box_and_version source ≡ ok (box, version)
      → (given : Text) × (source ≡ box ++ (b':' ∷ given))
        × (has_char b':' box ≡ false)
        × (version ≡ without_v given)
  unfolding box_and_version
  box_and_version_lem source box version h = elim (Option-cases (cut b':' source)) [
    | inl e ↦ cc (rw (e, box_and_version) at h)
    | inr ((b, v), e) ↦
        let (p, q) = cut-eq-some b':' source b v e in
        let (x, y) = ok_pair b (without_v v) (rw (e, box_and_version) at h) in
        (v, rw (← x) p, rw (← x) q, sym y)
  ]
    where
      ok_pair :
          (b v : Text)
          → ◌≡◌ {A = Result (Text × Text)} (ok (b, v)) (ok (box, version))
          → (b ≡ box) × (v ≡ version)
      ok_pair b v k = (cc, cc)

  content_lem :
      (response : Response) (bytes : Bytes)
      → content response ≡ ok bytes
      → (response.failure ≡ none) × (bytes ≡ flat_map (λ b. b) response.blocks)
  content_lem response bytes h = elim (Option-cases response.failure) [
    | inl e ↦ (e, sym (ok-injective (rw e at h)))
    | inr (x, e) ↦ cc (rw e at h)
  ]

  error_free :
      {A : Type 0} (b : Bool) (e : Exn) {r : Result A} {x : A}
      → (if b then err e else r) ≡ ok x
      → (b ≡ false) × (r ≡ ok x)
  error_free true e h = cc
  error_free false e h = (refl, h)

  download_box_lem :
      (url : Text) (bytes : Bytes) → download_box sources url ≡ ok bytes → Downloads url bytes
  unfolding download_box
  download_box_lem url bytes h =
      let (r, answered, h1) = >>=-eq-ok (sources.get url) _ h in
      let (r', checked, h2) = >>=-eq-ok (raise_for_status r) _ h1 in
      let (n, _, h3) = >>=-eq-ok (total_length r') _ h2 in
      let (no_error, same) = error_free r.is_error os_error checked in
      let (whole, all_of_it) = content_lem r' bytes h3 in
      let e = ok-injective same in
      record {
        response = r;
        answered = answered;
        no_error = no_error;
        whole = rw e whole;
        same = rw e all_of_it;
      }

  download_vagrant_info_lem :
      (box : Text) (info : BoxInfo)
      → download_vagrant_info sources box ≡ ok info
      → (body : Bytes) × Downloads (lit "https://app.vagrantup.com/api/v1/box/" ++ box) body
        × (sources.loads body ≡ ok info)
  unfolding download_vagrant_info
  download_vagrant_info_lem box info h =
      let (r, answered, h1) =
        >>=-eq-ok (sources.get (lit "https://app.vagrantup.com/api/v1/box/" ++ box)) _ h in
      let (body, given, h2) = >>=-eq-ok (content r) _ h1 in
      let (no_error, loaded) = error_free r.is_error _ h2 in
      let (whole, all_of_it) = content_lem r body given in
      (
        body,
        record {
          response = r;
          answered = answered;
          no_error = no_error;
          whole = whole;
          same = all_of_it;
        },
        loaded,
      )

  extractfile_lem :
      (name : Text) (members : List Member) (blocks : List Bytes)
      → extractfile name members ≡ ok blocks
      → (last : Member) × First (λ m. text_eq m.name name) (reverse members) last
        × (last.contents ≡ some blocks)
  unfolding extractfile
  extractfile_lem name members blocks h =
      elim (Option-cases (find? (λ m. text_eq m.name name) (reverse members))) [
        | inl e ↦ cc (rw (e, extractfile) at h)
        | inr (m, e) ↦ elim (Option-cases m.contents) [
          | inl e' ↦ cc (rw (e, e', extractfile) at h)
          | inr (s, e') ↦ (
            m,
            find?-First (λ m. text_eq m.name name) (reverse members) m e,
            e' ∙ ap some (ok-injective (rw (e, e', extractfile) at h)),
          )
        ]
      ]

  box_image_lem :
      (members : List Member) (blocks : List Bytes)
      → box_image members ≡ ok blocks
      → (m : Member) × (last : Member) × First (λ m. ends_with m.name (lit "box.img")) members m
        × First (λ k. text_eq k.name m.name) (reverse members) last
        × (last.contents ≡ some blocks)
  unfolding box_image
  box_image_lem members blocks h =
      elim (Option-cases (find? (λ m. ends_with m.name (lit "box.img")) members)) [
        | inl e ↦ cc (rw (e, box_image) at h)
        | inr (m, e) ↦
            let (last, of_that_name, extracted) =
              extractfile_lem m.name members blocks (rw (e, box_image) at h) in
            (
              m,
              last,
              find?-First (λ m. ends_with m.name (lit "box.img")) members m e,
              of_that_name,
              extracted,
            )
      ]

  vagrant_box_url_lem :
      (version url : Text) (info : BoxInfo)
      → vagrant_box_url version info ≡ ok url
      → version_url version info.versions ≡ some url
  unfolding vagrant_box_url
  vagrant_box_url_lem version url info h = elim (Option-cases (version_url version info.versions)) [
    | inl e ↦ cc (rw (e, vagrant_box_url) at h)
    | inr (u, e) ↦ e ∙ ap some (ok-injective (rw (e, vagrant_box_url) at h))
  ]

  vagrant_stream-Provenance :
      (source : Text) (blocks : List Bytes)
      → vagrant_stream sources source ≡ ok blocks
      → Provenance source blocks
  unfolding vagrant_stream
  vagrant_stream-Provenance source blocks h =
      let ((box, version), named, h1) = >>=-eq-ok (box_and_version source) _ h in
      let (info, told, h2) = >>=-eq-ok (download_vagrant_info sources box) _ h1 in
      let (url, chosen, h3) = >>=-eq-ok (vagrant_box_url version info) _ h2 in
      let (box_file, downloaded, h4) = >>=-eq-ok (download_box sources url) _ h3 in
      let (members, unpacked, h5) = >>=-eq-ok (sources.getmembers box_file) _ h4 in
      let (given, is_source, no_colon, is_version) = box_and_version_lem source box version named in
      let (body, info_download, loaded) = download_vagrant_info_lem box info told in
      let (v, p, in_version, by_provider, is_url) =
        version_url-First version info.versions url (vagrant_box_url_lem version url info chosen) in
      let (m, last, in_archive, of_that_name, extracted) = box_image_lem members blocks h5 in
      record {
        box = box;
        version = given;
        box_info = info;
        info = v;
        provider = p;
        member = m;
        last = last;
        of_that_name = of_that_name;
        members = members;
        body = body;
        box_file = box_file;
        named = is_source;
        no_colon = no_colon;
        told = info_download;
        loaded = loaded;
        in_version = rw (← is_version) in_version;
        by_provider = by_provider;
        downloaded = rw (← is_url) (download_box_lem url box_file downloaded);
        unpacked = unpacked;
        in_archive = in_archive;
        extracted = extracted;
      }

  -- Whatever the network and the archive hold: if the vagrant protocol ends without an exception, the
  -- source is a box and, behind its first colon, a version; and what was written is, up to the first empty
  -- block, the last member of the archive with the name of its first member that has a name ending in
  -- "box.img". The archive was downloaded whole
  -- and without an error from the first libvirt provider of the first version of the box which has that
  -- number, without its "v", and a libvirt provider.
  pub retrieve_vagrant-Provenance :
      (source : Text) (written : Bytes)
      → retrieve_vagrant sources source ≡ (written, none)
      → (blocks : List Bytes) × Provenance source blocks × (written ≡ concat (before_end blocks))
  unfolding retrieve_vagrant
  retrieve_vagrant-Provenance source written h =
      elim (Result-cases (vagrant_stream sources source)) [
        | inr (e, failure) ↦ absurd (not_none (rw failure at h))
        | inl (blocks, made) ↦ (
          blocks,
          vagrant_stream-Provenance source blocks made,
          sym (
              ap (λ (p : Fetched). p.0)
                (rw (made, copy_with_progress_plain sources.inflate false blocks (λ k. cc)) at h)),
        )
      ]
    where
      not_none : {a b : Bytes} {e : Exn} → ◌≡◌ {A = Fetched} (a, some e) (b, none) → ⊥
      not_none k = cc
