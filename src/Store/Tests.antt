-- ===== src/Store/Tests.antt =====
-- transient/store.py on concrete stores: runs of the operations, and the theorems at their inputs.
use mathlib.Core.Path.{sym, subst}
use transient.Base.{
  reorder_swap, Reorders-refl, Reorders, ◌≡◌, refl, sym, ◌∙◌, true, false, none, some, List, [],
  ◌∷◌, ◌++◌, arith, All, Text, lit, text_eq, ends_with, has_char, split, file_not_found, Result, ok,
  err,
}
use transient.Base.Dict.{Dict}
use transient.Store.State.{Overlay}
use transient.Base.{ok-injective}
use transient.Base.Utf8.{IsScalar}
use transient.Base.Decimal.{show_nat, read_nat}
use transient.Base.Dict.{lookup, insert, erase, has_key}
use transient.Stream.{copy_blocks, detect}
use transient.Store.Protocols.{BoxInfo, Sources, retrieve_vagrant, fetch}
use transient.Store.Protocols.Vagrant.{Provenance, retrieve_vagrant-Provenance}
use transient.Stream.Copy.{before_end, concat}
use transient.Store.Name.{storage_safe_encode, storage_safe_decode}
use transient.Store.Name.Safe.{IsSafe, storage_safe_encode-IsSafe}
use transient.Store.Name.RoundTrip.{storage_safe_decode-storage_safe_encode}
use transient.Store.Spec.{Protocol, ImageSpec, vagrant, http, image_spec, match_spec, find_protocol}
use transient.Store.Spec.Parse.{chosen, image_spec-three_parts}
use transient.Store.Frontend.{frontend_name, parse_frontend_name, is_backend_image_name}
use transient.Store.Frontend.RoundTrip.{
  parse_frontend_name-frontend_name, is_backend_image_name_exact,
}
use transient.Store.State.{Bytes, CreateConfig, Store, Tools, is_dot_name}
use transient.Store.Backend.{
  backend_info, path_exists, protocol_retrieve, lock_working, fill, retrieve_image, write_over,
}
use transient.Store.Backend.Retrieve.{
  KeepsImages, KeepsImages-refl, retrieve_image-KeepsImages, Retrieved, retrieve_image-Retrieved,
}
use transient.Store.Vm.{
  dir_exists, vmstate_exists, create_vm_image, create_images, create_vmstate, frontend_info,
  backend_of,
}
use transient.Store.Vm.Loads.{IsScalarSpec}
use transient.Store.Vm.Load.{Loaded, get_vmstate_by_name-create_vmstate}
use transient.Store.Vm.Abstract.{IsVmName, Runs, view, create, remove}
use transient.Store.Vm.Refine.{apply_all, apply_all-Runs}
use transient.Store.Vm.Create.{Created, create_vmstate-Created}

encoded : storage_safe_encode (lit "box/a-1é") ≡ lit "box%2Fa%2D1%C3%A9"
unfolding storage_safe_encode lit
encoded = refl

decoded : storage_safe_decode (lit "a%2db%zz%ff") ≡ lit "a-b%zz" ++ (0xFFFD ∷ [])
unfolding storage_safe_decode lit
decoded = refl

abbrev vm : Text
vm = b'v' ∷ b'-' ∷ b'1' ∷ []

abbrev img : Text
img = b'i' ∷ b'/' ∷ b'1' ∷ []

vm-IsScalar : All IsScalar vm
vm-IsScalar = omega arith

img-IsScalar : All IsScalar img
img-IsScalar = omega arith

storage_safe_encode-IsSafe_example : IsSafe (storage_safe_encode vm)
storage_safe_encode-IsSafe_example = storage_safe_encode-IsSafe vm vm-IsScalar

storage_safe_decode-storage_safe_encode_example : storage_safe_decode (storage_safe_encode vm) ≡ vm
storage_safe_decode-storage_safe_encode_example =
    storage_safe_decode-storage_safe_encode vm vm-IsScalar

parse_frontend_name-frontend_name_example :
    parse_frontend_name (frontend_name vm 12 img)
    ≡ ok (record { vm_name = vm; disk_number = 12; backend_image_name = img })
parse_frontend_name-frontend_name_example =
    parse_frontend_name-frontend_name vm 12 img vm-IsScalar img-IsScalar

is_backend_image_name_exact_example :
    (is_backend_image_name (storage_safe_encode img) ≡ true)
    × (is_backend_image_name (frontend_name vm 0 img) ≡ false)
is_backend_image_name_exact_example = is_backend_image_name_exact vm 0 img img-IsScalar (λ e. cc)

-- "a,http=u"
abbrev source_text : Text
source_text = b'u' ∷ []

abbrev proto_rest : Text
proto_rest = b't' ∷ b't' ∷ b'p' ∷ []

image_spec-three_parts_example :
    image_spec ((b'a' ∷ []) ++ (b',' ∷ ((b'h' ∷ proto_rest) ++ (b'=' ∷ source_text))))
    ≡ chosen (b'a' ∷ []) (b'h' ∷ proto_rest) source_text (find_protocol (b'h' ∷ proto_rest))
unfolding has_char
image_spec-three_parts_example =
    image_spec-three_parts b'a' [] b'h' proto_rest source_text refl refl (λ e. cc) refl

http_found : find_protocol (lit "HTTPS") ≡ some http
unfolding find_protocol lit
http_found = refl

bad_specs :
    (match_spec (lit "") ≡ none)
    × (match_spec (lit ",file=a") ≡ none)
    × (match_spec (lit "a,file=") ≡ none)
    × (match_spec (lit "a,=file") ≡ none)
unfolding match_spec lit has_char
bad_specs = (refl, refl, refl, refl)

abbrev config : CreateConfig
config = record { name = some vm; image = img; extra_image = img ∷ []; fields = [] }

-- A directory that lists its second file first.
abbrev second_first : Dict Overlay → Dict Overlay
second_first [] = []
second_first (x ∷ []) = x ∷ []
second_first (x ∷ y ∷ files) = y ∷ x ∷ files

second_first-Reorders : (files : Dict Overlay) → Reorders files (second_first files)
second_first-Reorders [] = Reorders-refl []
second_first-Reorders (x ∷ []) = Reorders-refl (x ∷ [])
second_first-Reorders (x ∷ y ∷ files) = reorder_swap x y files

-- Programs that always succeed, and no other process.
abbrev tools : Tools
tools = record {
  fetch = λ p source. (source, none);
  on_disk = λ b. b;
  convert = λ b. ok b;
  readable = λ b. true;
  create_overlay = λ b. ok b;
  fresh_name = λ s. vm;
  meanwhile = λ s. s;
  dump_config = λ config. ok config.image;
  load_config = λ written. ok config;
  list_dir = second_first;
  rename_dir = λ s. none;
  leave_tempdir = λ s. none;
  rmtree = λ dir. none;
}

abbrev nothing : Store
nothing = record { images = []; working = []; vms = []; locked = [] }

alone : (s : Store) → KeepsImages s (tools.meanwhile s)
alone s = KeepsImages-refl s

retrieve_image-KeepsImages_example : KeepsImages nothing (retrieve_image tools img nothing).1
retrieve_image-KeepsImages_example = retrieve_image-KeepsImages tools alone img nothing

abbrev after_retrieval : Store
after_retrieval = record nothing {
  images = (storage_safe_encode img, record { content = img; read_only = true }) ∷ [];
}

retrieval :
    retrieve_image tools img nothing
    ≡ (ok (record { file = storage_safe_encode img; identifier = img }), after_retrieval)
unfolding retrieve_image image_spec match_spec storage_safe_encode storage_safe_decode path_exists
    protocol_retrieve lock_working fill write_over lookup insert erase has_key backend_info
    is_dot_name text_eq lit
retrieval = refl

retrieve_image-Retrieved_example :
    Retrieved tools img
      (record { file = storage_safe_encode img; identifier = img })
      after_retrieval
retrieve_image-Retrieved_example =
    retrieve_image-Retrieved tools img nothing after_retrieval
      (record { file = storage_safe_encode img; identifier = img }) retrieval

create_vmstate-Created_example :
    Created tools alone config nothing
      (create_vmstate tools config nothing).0
      (create_vmstate tools config nothing).1
create_vmstate-Created_example = create_vmstate-Created tools alone config nothing

creation : create_vmstate tools config nothing ≡ (ok vm, (create_vmstate tools config nothing).1)
unfolding create_vmstate create_images create_vm_image vmstate_exists dir_exists frontend_info
    frontend_name parse_frontend_name backend_of split show_nat read_nat retrieve_image image_spec
    match_spec storage_safe_encode storage_safe_decode path_exists protocol_retrieve lock_working
    fill write_over lookup insert erase has_key backend_info is_dot_name text_eq lit
creation = refl

img_spec : image_spec img ≡ ok (record { name = img; source_proto = vagrant; source = img })
unfolding image_spec match_spec lit
img_spec = refl

img_spec_scalar : IsScalarSpec img
img_spec_scalar spec h =
    subst (λ (s : ImageSpec). All IsScalar s.name) (ok-injective (sym img_spec ∙ h)) img-IsScalar

get_vmstate_by_name-create_vmstate_example :
    Loaded tools alone config vm (create_vmstate tools config nothing).1
get_vmstate_by_name-create_vmstate_example =
    get_vmstate_by_name-create_vmstate tools alone second_first-Reorders config vm nothing
      (create_vmstate tools config nothing).1 (λ written e. refl) creation vm-IsScalar
      (img_spec_scalar, (img_spec_scalar, tt))

tools_fresh : (s : Store) → All IsScalar (tools.fresh_name s)
tools_fresh s = omega arith

vm-IsVmName : IsVmName vm
unfolding is_dot_name storage_safe_encode text_eq lit
vm-IsVmName = (vm-IsScalar, refl)

config-IsVmOp : (name : Text) → config.name ≡ some name → All IsScalar name
config-IsVmOp name e = let same : vm ≡ name = cc in subst (All IsScalar) same vm-IsScalar

apply_all-Runs_example :
    Runs tools.dump_config
      (view nothing)
      (create config ∷ remove vm ∷ [])
      (view (apply_all tools alone (create config ∷ remove vm ∷ []) nothing))
apply_all-Runs_example =
    apply_all-Runs tools alone tools_fresh (λ d rest e h. cc) (create config ∷ remove vm ∷ [])
      nothing (config-IsVmOp, (vm-IsVmName, tt))

-- A box with two versions, of which the second has a libvirt provider, in an archive with a directory
abbrev box_of : Bytes → Result BoxInfo
box_of body = ok (record {
  tag = lit "generic/alpine38";
  versions =
      record {
        version = lit "1";
        providers = record { name = lit "virtualbox"; download_url = lit "a" } ∷ [];
      }
      ∷ record {
        version = lit "2";
        providers =
            record { name = lit "virtualbox"; download_url = lit "b" }
            ∷ record { name = lit "libvirt"; download_url = lit "c" }
            ∷ [];
      }
      ∷ [];
})

abbrev sources : Sources
sources = record {
  get = λ url. ok (record {
    is_error = false;
    content_length = some (lit "3");
    blocks = (1 ∷ 2 ∷ []) ∷ (3 ∷ []) ∷ [];
    failure = none;
  });
  loads = box_of;
  open_file = λ path. err file_not_found;
  getmembers = λ bytes. ok (
      record { name = lit "metadata.json"; contents = none }
      ∷ record { name = lit "dir/box.img"; contents = some ((7 ∷ []) ∷ (8 ∷ []) ∷ []) }
      ∷ []);
  inflate = λ format fed block. ok block;
}

fetched_box : retrieve_vagrant sources (lit "generic/alpine38:v2") ≡ (7 ∷ 8 ∷ [], none)
unfolding retrieve_vagrant ends_with lit read_nat copy_blocks
fetched_box = refl

fetched_page : fetch sources http (lit "http://x") ≡ (1 ∷ 2 ∷ 3 ∷ [], none)
unfolding fetch lit read_nat detect
fetched_page = refl

no_file : fetch sources Protocol.file (lit "x.qcow2") ≡ ([], some file_not_found)
unfolding fetch lit
no_file = refl

retrieve_vagrant-Provenance_example :
    (blocks : List Bytes) × Provenance sources (lit "generic/alpine38:v2") blocks
    × (7 ∷ 8 ∷ [] ≡ concat (before_end blocks))
retrieve_vagrant-Provenance_example =
    retrieve_vagrant-Provenance sources (lit "generic/alpine38:v2") (7 ∷ 8 ∷ []) fetched_box
