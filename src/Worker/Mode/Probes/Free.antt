-- ===== src/Worker/Mode/Probes/Free.antt =====
-- What it means that the probe of worker/mode.py reports no process.
use astrum_weaver.Prelude.{
  String, ◌≡◌, refl, sym, ap, ◌∙◌, subst, false, Option, none, some, List, [], ◌∷◌, ◌==◌, Within,
  inl, inr, arith, eq_iff, Bool-cases, Option-cases, ℤ,
}
use astrum_weaver.Text.{strip}
use astrum_weaver.Text.Number.{python_int}
use astrum_weaver.Text.Lines.{splitlines}
use astrum_weaver.Dict.{Dict, get, put}
use astrum_weaver.Dict.Laws.{get-put}
use astrum_weaver.GpuMapping.Query.{CompletedProcess, succeeded}
use astrum_weaver.Worker.Mode.{GpuProcess}
use astrum_weaver.Worker.Mode.Probes.{
  Runner, run_command, gpu_index_map, expected_indexes, split_words, process_in, process_of,
  is_silent, with_process, processes_in, row_then, active_processes,
}
use astrum_weaver.Result.{Result, ok, err, ok_inj, runtime_error, >>=-eq-ok, require->>, if_cases}

run_command-ok :
    (run : Runner) (message : String) (arguments : List String) (c : CompletedProcess)
    → run_command run message arguments ≡ ok c
    → run arguments ≡ some c
unfolding run_command
run_command-ok run message arguments c h = elim (Option-cases (run arguments)) [
  | inl e ↦ absurd (cc (rw (e, run_command) at h))
  | inr (a, e) ↦ e ∙ ap some (ok_inj (rw (e, run_command) at h))
]

-- Every index that the map had, or that an expected UUID has, is in the result.
expected_indexes_kept :
    (index_map : Dict String) (uuids : List String) (indexes : Dict String) (i u : String)
    → get i indexes ≡ some u
    → (v : String) × (get i (expected_indexes index_map uuids indexes) ≡ some v)
unfolding expected_indexes
expected_indexes_kept index_map [] indexes i u h = (u, h)
expected_indexes_kept index_map (uuid ∷ uuids) indexes i u h =
    elim (Option-cases (get uuid index_map)) [
      | inl e ↦ rw (e, expected_indexes) (expected_indexes_kept index_map uuids indexes i u h)
      | inr (index, e) ↦
          rw (e, expected_indexes)
            (elim (Bool-cases (index == i)) [
              | inl same ↦
                  expected_indexes_kept index_map uuids (put index uuid indexes) i uuid
                    (rw (get-put index i uuid indexes, same))
              | inr other ↦
                  expected_indexes_kept index_map uuids (put index uuid indexes) i u
                    (rw (get-put index i uuid indexes, other) h)
            ])
    ]

expected_indexes_complete :
    (index_map : Dict String) (uuids : List String) (indexes : Dict String) (uuid i : String)
    → Within uuid uuids
    → get uuid index_map ≡ some i
    → (v : String) × (get i (expected_indexes index_map uuids indexes) ≡ some v)
unfolding expected_indexes
expected_indexes_complete index_map [] indexes uuid i w h = elim w [ ]
expected_indexes_complete index_map (first ∷ uuids) indexes uuid i w h = elim w [
  | inl same ↦
      (let e : get first index_map ≡ some i = subst (λ x. get x index_map ≡ some i) same h in
        rw (e, expected_indexes)
          (expected_indexes_kept index_map uuids (put i first indexes) i first
            (ground (arith, get-put i i first indexes, eq_iff i i))))
  | inr later ↦ elim (Option-cases (get first index_map)) [
    | inl e ↦
        rw (e, expected_indexes) (expected_indexes_complete index_map uuids indexes uuid i later h)
    | inr (index, e) ↦
        rw (e, expected_indexes)
          (expected_indexes_complete index_map uuids (put index first indexes) uuid i later h)
  ]
]

numbered :
    (o : Option ℤ) (p : ℤ → GpuProcess)
    → ◌≡◌ {A = Result (Option GpuProcess)}
        (elim o [
          | none ↦ err (runtime_error "unexpected nvidia-smi process PID")
          | some pid ↦ ok (some (p pid))
        ])
        (ok none)
    → ⊥
numbered none p h = cc (h)
numbered (some pid) p h = cc (ok_inj h)

-- No process in a row whose GPU is expected means the dash.
process_in-free :
    (uuid raw_pid process_type : String) (more : List String)
    → process_in uuid raw_pid process_type more ≡ ok none
    → raw_pid ≡ "-"
unfolding process_in
process_in-free uuid raw_pid process_type more =
    if_cases (λ r. r ≡ ok none → raw_pid ≡ "-") (raw_pid == "-")
      (λ dash h. (eq_iff raw_pid "-").0 dash) λ number h. absurd (numbered (python_int raw_pid) _ h)

process_of-free :
    (indexes : Dict String) (i raw_pid process_type uuid : String) (more : List String)
    → get i indexes ≡ some uuid
    → process_of indexes (i ∷ raw_pid ∷ process_type ∷ more) ≡ ok none
    → raw_pid ≡ "-"
unfolding process_of
process_of-free indexes i raw_pid process_type uuid more e h =
    process_in-free uuid raw_pid process_type more (rw (e, process_of) at h)

no_process :
    (found : Option GpuProcess) (ps : List GpuProcess)
    → with_process found ps ≡ []
    → (found ≡ none) × (ps ≡ [])
no_process none ps h = (refl, h)
no_process (some p) ps h = absurd (cc h)

row_then-nil :
    (row : Result (Option GpuProcess)) (later : Result (List GpuProcess))
    → row_then row later ≡ ok []
    → (row ≡ ok none) × (later ≡ ok [])
unfolding row_then
row_then-nil (err e) later h = absurd (cc (h))
row_then-nil (ok found) (err e) h = absurd (cc (h))
row_then-nil (ok found) (ok ps) h =
    let (nothing, empty) = no_process found ps (ok_inj h) in (ap ok nothing, ap ok empty)

-- A line of the table that is no comment, with its first three words.
pub record Row (output raw_line index raw_pid process_type : String) : Type 0 where
  pub inside : Within raw_line (splitlines output)
  pub told : is_silent (strip raw_line) ≡ false
  pub more : List String
  pub parts : split_words 7 (strip raw_line) ≡ index ∷ raw_pid ∷ process_type ∷ more

processes_in-free :
    (indexes : Dict String) (lines : List String) (raw_line i raw_pid process_type uuid : String)
    (more : List String)
    → processes_in indexes lines ≡ ok []
    → Within raw_line lines
    → is_silent (strip raw_line) ≡ false
    → split_words 7 (strip raw_line) ≡ i ∷ raw_pid ∷ process_type ∷ more
    → get i indexes ≡ some uuid
    → raw_pid ≡ "-"
unfolding processes_in
processes_in-free indexes [] raw_line i raw_pid process_type uuid more h w told parts e = elim w [ ]
processes_in-free indexes (first ∷ lines) raw_line i raw_pid process_type uuid more h w told parts
      e =
    if_cases (λ r. r ≡ ok [] → raw_pid ≡ "-") (is_silent (strip first))
      (λ silent k. elim w [
        | inl same ↦ absurd (
            let s : is_silent (strip first) ≡ false =
              subst (λ x. is_silent (strip x) ≡ false) same told in
            cc (s, silent))
        | inr later ↦
            processes_in-free indexes lines raw_line i raw_pid process_type uuid more k later told
              parts e
      ])
      (λ loud k.
        let (nothing, rest) =
          row_then-nil (process_of indexes (split_words 7 (strip first)))
            (processes_in indexes lines) k in
        elim w [
          | inl same ↦
              (let p : split_words 7 (strip first) ≡ i ∷ raw_pid ∷ process_type ∷ more =
                  subst (λ x. split_words 7 (strip x) ≡ i ∷ raw_pid ∷ process_type ∷ more) same
                    parts in
                process_of-free indexes i raw_pid process_type uuid more e
                  (ap (process_of indexes) (sym p) ∙ nothing))
          | inr later ↦
              processes_in-free indexes lines raw_line i raw_pid process_type uuid more rest later
                told parts e
        ])
      h

-- What the probe has read, and that each row of an expected GPU has a dash for its process.
pub record SawFree (run : Runner) (expected : List String) : Type 0 where
  pub index_map : Dict String
  pub mapped : gpu_index_map run ≡ ok index_map
  pub table : CompletedProcess
  pub read : run ("pmon" ∷ "-c" ∷ "1" ∷ []) ≡ some table
  pub free :
      (uuid index raw_line raw_pid process_type : String)
      → Within uuid expected
      → get uuid index_map ≡ some index
      → Row table.stdout raw_line index raw_pid process_type
      → raw_pid ≡ "-"

-- Where the probe reports no process, nvidia-smi's table has, in every row whose index is that of an
-- expected GPU, a dash in the place of the process.
pub active_processes-SawFree :
    (run : Runner) (expected : List String)
    → active_processes run expected ≡ ok []
    → SawFree run expected
unfolding active_processes
active_processes-SawFree run expected h =
    let (index_map, mapped, h1) = >>=-eq-ok (gpu_index_map run) _ h in
    let (table, read, h2) =
      >>=-eq-ok (run_command run "nvidia-smi is unavailable" ("pmon" ∷ "-c" ∷ "1" ∷ [])) _ h1 in
    let (passed, h3) = require->> (succeeded table) _ _ h2 in
    record {
      index_map = index_map;
      mapped = mapped;
      table = table;
      read = run_command-ok run _ _ table read;
      free = λ uuid index raw_line raw_pid process_type w e row.
          let (v, known) = expected_indexes_complete index_map expected [] uuid index w e in
          processes_in-free (expected_indexes index_map expected []) (splitlines table.stdout)
            raw_line index raw_pid process_type v row.more h3 row.inside row.told row.parts known;
    }
