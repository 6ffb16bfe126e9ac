-- ===== src/Cli/Listing/Rows.antt =====
-- transient/cli.py, `ps_impl`: which machines its table lists, and that it is rectangular.
use transient.Base.{
  ℕ, suc, ◌≡◌, refl, ap, ◌∙◌, ◌⊎◌, inl, inr, Bool, true, false, not, Option, none, some, List, [],
  ◌∷◌, ◌++◌, map, if◌then◌else◌, length, filter, All, All-append, Text, lit, attribute_error,
  Result, ok, err, ◌>>=◌, map_result,
}
use mathlib.Core.List.{map-append}
use transient.Base.Dict.{lookup}
use transient.Configuration.{Needs}
use transient.Scan.{Json, text, null, TransientInstance, scan_procs}
use transient.Scan.Search.{Clock, Found, find_transient_instances_once}
use transient.Scan.Matches.{Selected, scan_procs-Selected}
use transient.Store.State.{Store, Tools, CreateConfig}
use transient.Store.Vm.{VmState, unlocked_vmstates}
use transient.Store.Vm.Listing.{vmstates, is_unlocked, vmstates_lem}
use transient.Cli.Ssh.{is_null}
use transient.Cli.Listing.{
  str_bool, PsArgs, Row, Table, optional_cell, ps_headers, ps_criteria, attribute, started_row,
  offline_row, offline_rows, with_instances, ps_impl,
}

-- The first cell of a row
abbrev pub name_cell : Row → Json
name_cell [] = null
name_cell (cell ∷ row) = cell

-- An attribute that the table needs and the instance does not have
abbrev pub Lacks : PsArgs → TransientInstance → Type 0
Lacks args i =
    (lookup (lit "primary_image") i.config ≡ none)
    ⊎ ((args.pid ≡ true) × (lookup (lit "transient_pid") i.config ≡ none))

three_more : {m n : ℕ} → m ≡ n → suc (suc (suc m)) ≡ suc (suc (suc n))
three_more e = ap (λ n. suc (suc (suc n))) e

optional_cells-length :
    {A B : Type 0} (b c : Bool) (x y : A) (u v : B)
    → length (optional_cell b x ++ optional_cell c y)
      ≡ length (optional_cell b u ++ optional_cell c v)
optional_cells-length true true x y u v = refl
optional_cells-length true false x y u v = refl
optional_cells-length false true x y u v = refl
optional_cells-length false false x y u v = refl

module _ (strftime : ℕ → Text) (str : Json → Text) (args : PsArgs) where
  -- What a running instance adds
  abbrev StartedEnds : TransientInstance → Result Row → Type 0
  StartedEnds i (ok row) = (name_cell row ≡ i.name) × (length row ≡ length (ps_headers args))
  StartedEnds i (err e) = (e ≡ attribute_error) × Lacks args i

  abbrev RowsEnd : List TransientInstance → Result (List Row) → Type 0
  RowsEnd is (ok rows) =
      (map name_cell rows ≡ map (λ (i : TransientInstance). i.name) is)
      × All (λ row. length row ≡ length (ps_headers args)) rows
  RowsEnd is (err e) =
      (e ≡ attribute_error)
      × (before : List TransientInstance) × (i : TransientInstance) × (after : List
          TransientInstance)
      × (is ≡ before ++ (i ∷ after))
      × Lacks args i

  started_row-Ends : (i : TransientInstance) → StartedEnds i (started_row strftime str args i)
  unfolding started_row attribute ps_headers
  started_row-Ends i =
      go (lookup (lit "primary_image") i.config) refl args.pid refl
        (lookup (lit "transient_pid") i.config) refl
    where
      go :
          (image : Option Json)
          → lookup (lit "primary_image") i.config ≡ image
          → (pid : Bool) → args.pid ≡ pid
          → (own : Option Json) → lookup (lit "transient_pid") i.config ≡ own
          → StartedEnds i (started_row strftime str args i)
      go none p pid w own q = rw p (refl, inl p)
      go (some j) p false w own q =
          rw (p, w)
            (
              refl,
              three_more (
                  optional_cells-length false args.ssh j
                    (text (str_bool (not (is_null i.ssh_port)))) (lit "PID") (lit "SSH")),
            )
      go (some j) p true w none q = rw (p, w, q) (refl, inr (refl, q))
      go (some j) p true w (some n) q =
          rw (p, w, q)
            (
              refl,
              three_more (
                  optional_cells-length true args.ssh (text (str n))
                    (text (str_bool (not (is_null i.ssh_port)))) (lit "PID") (lit "SSH")),
            )

  map_result-RowsEnd :
      (is : List TransientInstance) → RowsEnd is (map_result (started_row strftime str args) is)
  map_result-RowsEnd [] = (refl, tt)
  map_result-RowsEnd (i ∷ is) =
      go (started_row strftime str args i) (started_row-Ends i)
        (map_result (started_row strftime str args) is) (map_result-RowsEnd is)
    where
      go :
          (r : Result Row)
          → StartedEnds i r
          → (rs : Result (List Row)) → RowsEnd is rs
          → RowsEnd (i ∷ is) (r >>= λ row. rs >>= λ rows. ok (row ∷ rows))
      go (err e) (attr, lacks) rs ends = (attr, [], i, is, refl, lacks)
      go (ok row) (name, width) (err e) (attr, before, j, after, p, lacks) =
          (attr, i ∷ before, j, after, ap (λ r. i ∷ r) p, lacks)
      go (ok row) (name, width) (ok rows) (names, widths) = (rw (name, names) refl, (width, widths))

offline_row-length :
    (needs : CreateConfig → Needs) (args : PsArgs) (vm : VmState)
    → length (offline_row needs args vm) ≡ length (ps_headers args)
unfolding offline_row ps_headers
offline_row-length needs args vm = three_more (optional_cells-length args.pid args.ssh _ _ _ _)

module _ (realpath : Text → Text) (strftime : ℕ → Text) (str : Json → Text)
    (needs : CreateConfig → Needs) (tools : Tools) where
  -- The machines that `--all` adds
  abbrev pub offline : PsArgs → Store → List VmState
  offline args s = if args.all then filter (is_unlocked s) (unlocked_vmstates tools s) else []

  -- The table lists the instances of the pass, and then the others, with a cell for each header in each
  -- row. It is not made if reading a process raised, or if an instance lacks an attribute.
  abbrev pub Lists : Clock → PsArgs → Store → Result Table → Type 0
  Lists clock args s (ok table) =
      (instances : List TransientInstance) × Selected realpath (ps_criteria args) (clock 0).1
        instances
      × (map name_cell table.rows
          ≡ map (λ (i : TransientInstance). i.name) instances
            ++ map (λ (v : VmState). text v.name) (offline args s))
      × All (λ row. length row ≡ length table.headers) table.rows
  Lists clock args s (err e) =
      (scan_procs realpath (ps_criteria args) (clock 0).1 ≡ err e)
      ⊎ ((e ≡ attribute_error)
          × (before : List TransientInstance) × (i : TransientInstance) × (after : List
              TransientInstance)
          × Selected realpath (ps_criteria args) (clock 0).1 (before ++ (i ∷ after))
          × Lacks args i)

  offline_rows-names :
      (args : PsArgs) (s : Store)
      → map name_cell (offline_rows realpath strftime str needs tools args s)
        ≡ map (λ (v : VmState). text v.name) (offline args s)
  unfolding offline_row
  offline_rows-names args s = go args.all
    where
      names_of :
          (vs : List VmState)
          → map name_cell (map (offline_row needs args) vs) ≡ map (λ (v : VmState). text v.name) vs
      names_of [] = refl
      names_of (v ∷ vs) = ap (λ r. text v.name ∷ r) (names_of vs)

      go :
          (b : Bool)
          → map name_cell (if b then map (offline_row needs args) (vmstates tools s) else [])
            ≡ map
                (λ (v : VmState). text v.name)
                (if b then filter (is_unlocked s) (unlocked_vmstates tools s) else [])
      go false = refl
      go true =
          names_of (vmstates tools s)
          ∙ ap (map (λ (v : VmState). text v.name)) (vmstates_lem tools s)

  offline_rows-length :
      (args : PsArgs) (s : Store)
      → All
          (λ row. length row ≡ length (ps_headers args))
          (offline_rows realpath strftime str needs tools args s)
  offline_rows-length args s = go args.all
    where
      each :
          (vs : List VmState)
          → All (λ row. length row ≡ length (ps_headers args)) (map (offline_row needs args) vs)
      each [] = tt
      each (v ∷ vs) = (offline_row-length needs args v, each vs)

      go :
          (b : Bool)
          → All
              (λ row. length row ≡ length (ps_headers args))
              (if b then map (offline_row needs args) (vmstates tools s) else [])
      go false = tt
      go true = each (vmstates tools s)

  with_instances-Lists :
      (clock : Clock) (args : PsArgs) (s : Store) (found : Found)
      → scan_procs realpath (ps_criteria args) (clock 0).1 ≡ found
      → (result : Result Table) × (with_instances realpath strftime str needs tools args s
            (some found)
          ≡ some result)
        × Lists clock args s result
  with_instances-Lists clock args s (err e) h = (err e, refl, inl h)
  with_instances-Lists clock args s (ok is) h = (
    _,
    refl,
    go (map_result (started_row strftime str args) is) (map_result-RowsEnd strftime str args is)
        (scan_procs-Selected realpath (ps_criteria args) (clock 0).1 is h),
  )
    where
      map_names :
          (rows : List Row) {names : List Json}
          → map name_cell rows ≡ names
          → map name_cell (rows ++ offline_rows realpath strftime str needs tools args s)
            ≡ names ++ map (λ (v : VmState). text v.name) (offline args s)
      map_names rows {names = names} e =
          map-append name_cell rows (offline_rows realpath strftime str needs tools args s)
          ∙ ap (λ ns. ns ++ map name_cell (offline_rows realpath strftime str needs tools args s)) e
          ∙ ap (λ ms. names ++ ms) (offline_rows-names args s)

      go :
          (rs : Result (List Row))
          → RowsEnd strftime str args is rs
          → Selected realpath (ps_criteria args) (clock 0).1 is
          → Lists clock args s (do
            rows ← rs
            ok (record {
              headers = ps_headers args;
              rows = rows ++ offline_rows realpath strftime str needs tools args s;
            }))
      go (err e) (attr, before, i, after, p, lacks) selected =
          inr (attr, before, i, after, rw (← p) selected, lacks)
      go (ok rows) (names, widths) selected = (
        is,
        selected,
        map_names rows names,
        All-append _ rows _ widths (offline_rows-length args s),
      )

  -- `ps` always ends, after one pass over the processes. If it makes a table, that lists by their names
  -- exactly the instances of the store that the pass finds, in its order, and with --all behind them the
  -- machines that can be read and that nobody has locked, in the order of their directories; and each
  -- row has as many cells as there are headers. It raises only if reading a process does, or if an instance
  -- that is found has no attribute for its image, or, with --pid, for its process.
  pub ps_impl-Lists :
      (clock : Clock) (args : PsArgs) (s : Store)
      → (result : Result Table) × (ps_impl realpath strftime str needs tools clock args s
          ≡ some result)
        × Lists clock args s result
  unfolding ps_impl
  ps_impl-Lists clock args s =
      let (result, made, lists) =
        with_instances-Lists clock args s (scan_procs realpath (ps_criteria args) (clock 0).1)
          refl in
      (
        result,
        ap (with_instances realpath strftime str needs tools args s)
              (find_transient_instances_once realpath 0 clock (ps_criteria args))
            ∙ made,
        lists,
      )
