-- ===== src/Cli/Copying.antt =====
-- transient/cli.py: the paths that a copy is planned for.
use transient.Base.{
  ok-injective, ◌≡◌, refl, sym, ap, ◌∙◌, Bool, true, false, Option, none, some, List, [], ◌∷◌, ◌++◌,
  append-nil, append_assoc, if◌then◌else◌, Text, text_eq, text_eq_sound, ok, map_result, >>=-eq-ok,
}
use transient.Base.Dict.{Dict, lookup, insert, lookup-insert}
use transient.Cli.{two_parts, add_path, group_sources}

abbrev or_empty : Option (List Text) → List Text
or_empty none = []
or_empty (some paths) = paths

-- The paths that a plan has for a virtual machine.
abbrev pub paths_of : Text → Dict (List Text) → List Text
paths_of vm config = or_empty (lookup vm config)

-- The paths of those sources that are in a virtual machine, in their order.
abbrev pub paths_in : Text → List (Text × Text) → List Text
paths_in vm [] = []
paths_in vm ((v, path) ∷ sources) =
    let rest = paths_in vm sources in if text_eq v vm then path ∷ rest else rest

paths_of-add_path :
    (vm v path : Text) (config : Dict (List Text))
    → paths_of vm (add_path v path config)
      ≡ (if text_eq v vm then paths_of vm config ++ (path ∷ []) else paths_of vm config)
unfolding add_path
paths_of-add_path vm v path config = go (lookup v config) refl (text_eq v vm) refl
  where
    go :
        (r : Option (List Text))
        → lookup v config ≡ r
        → (t : Bool) → text_eq v vm ≡ t
        → paths_of vm (elim r [
          | none ↦ insert v (path ∷ []) config
          | some paths ↦ insert v (paths ++ (path ∷ [])) config
        ])
          ≡ (if t then paths_of vm config ++ (path ∷ []) else paths_of vm config)
    go none e true h = rw (lookup-insert vm v (path ∷ []) config, h, sym (text_eq_sound v vm h), e)
    go none e false h = rw (lookup-insert vm v (path ∷ []) config, h)
    go (some paths) e true h =
        rw (lookup-insert vm v (paths ++ (path ∷ [])) config, h, sym (text_eq_sound v vm h), e)
    go (some paths) e false h = rw (lookup-insert vm v (paths ++ (path ∷ [])) config, h)

-- If the sources of a copy out of virtual machines are planned, each of them is a machine and a path,
-- and the plan has for each machine the paths of its sources, in their order, behind those that were
-- planned before: no source is lost, and none is given to another machine.
pub group_sources_lem :
    (sources : List Text) (config planned : Dict (List Text))
    → group_sources sources config ≡ ok planned
    → (pairs : List (Text × Text)) × (map_result two_parts sources ≡ ok pairs)
      × ((vm : Text) → paths_of vm planned ≡ paths_of vm config ++ paths_in vm pairs)
unfolding group_sources
group_sources_lem [] config planned h = (
  [],
  refl,
  λ vm. ap (paths_of vm) (sym (ok-injective h)) ∙ sym (append-nil (paths_of vm config)),
)
group_sources_lem (source ∷ sources) config planned h =
    let ((v, path), split_ok, rest) =
      >>=-eq-ok (two_parts source)
        (λ (p : Text × Text). group_sources sources (add_path p.0 p.1 config)) h in
    let (pairs, all_ok, same) = group_sources_lem sources (add_path v path config) planned rest in
    ((v, path) ∷ pairs, rw (split_ok, all_ok), λ vm. same vm ∙ one vm v path config pairs)
  where
    one :
        (vm v path : Text) (config : Dict (List Text)) (pairs : List (Text × Text))
        → paths_of vm (add_path v path config) ++ paths_in vm pairs
          ≡ paths_of vm config ++ paths_in vm ((v, path) ∷ pairs)
    one vm v path config pairs =
        ap (λ l. l ++ paths_in vm pairs) (paths_of-add_path vm v path config)
        ∙ chosen (text_eq v vm) (paths_of vm config) path (paths_in vm pairs)
      where
        chosen :
            (t : Bool) (old : List Text) (path : Text) (more : List Text)
            → (if t then old ++ (path ∷ []) else old) ++ more
              ≡ old ++ (if t then path ∷ more else more)
        chosen true old path more = append_assoc old (path ∷ []) more
        chosen false old path more = refl
