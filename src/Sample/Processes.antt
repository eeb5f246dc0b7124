-- ===== src/Sample/Processes.antt =====
-- The theorems about the agent and the launcher at concrete inputs: a process that ends by itself after seven
-- seconds, a channel to a remote one that ends after three, and a table with one criteria.
use ocudu_infra_srs.Prelude.{
  ℕ, ◌+◌, ◌≤◌, ◌≡◌, refl, true, ap, inl, inr, Bool, false, Option, none, some, List, [], ◌∷◌, arith,
  leb, if◌then◌else◌, All, Bool-cases,
}
use ocudu_infra_srs.Prelude.Text.{Text, text, text_eq}
use ocudu_infra_srs.Prelude.Int.{ℤ, pos}
use ocudu_infra_srs.Prelude.Dict.{Dict}
use ocudu_infra_srs.Prelude.Action.{type_error, Result, ok, raised, Exception, timeout_expired}
use ocudu_infra_srs.Agent.Executor.{ProcessLike, exit_process}
use ocudu_infra_srs.Agent.Executor.Stop.{IsProcess, ExitFrom, exit_process-ExitFrom}
use ocudu_infra_srs.Agent.Executor.Remote.{Channel, RemoteProcess, wait, WaitEnds, wait-WaitEnds}
use ocudu_infra_srs.Agent.Sut.{TestBed, SutHandler, extract_uhd, stop_binary}
use ocudu_infra_srs.Agent.Sut.Stopped.{Stopped, ReportsCode, stop_binary-Stopped}
use ocudu_infra_srs.Launcher.Criteria.{
  Criteria, CriteriaTable, own, Verdict, register, add_criteria, validate,
}
use ocudu_infra_srs.Launcher.Criteria.Kept.{KeptIn}
use ocudu_infra_srs.Launcher.Criteria.Failures.{failing, HasResult, Verdicts, validate-failing}
use ocudu_infra_srs.Launcher.Criteria.Registry.{Registers, Activates, registration_cases}

-- The state is the clock.
abbrev wait_until : ℕ → ℕ → Result (Option ℤ) × ℕ
wait_until ms clock =
    if leb 7000 (clock + ms)
    then (ok (some (pos 0)), clock + ms)
    else (raised timeout_expired, clock + ms)

abbrev gnb : ProcessLike
gnb = record {
  World = ℕ;
  now = λ clock. clock;
  name = λ clock. (ok (text "gnb"), clock);
  send_signal = λ s clock. (ok tt, clock);
  wait = wait_until;
  kill = λ clock. (ok tt, clock);
  is_absolute = λ path. false;
  exists = λ path clock. false;
  which = λ path clock. none;
  run_gdb = λ clock. (ok tt, clock);
}

wait_until_raises :
    (ms clock clock' : ℕ) (e : Exception)
    → wait_until ms clock ≡ (raised e, clock')
    → (e ≡ timeout_expired) × (clock + ms ≤ clock')
wait_until_raises ms clock clock' e h = elim (Bool-cases (leb 7000 (clock + ms))) [
  | inl k ↦ let impossible = rw k at h in cc
  | inr k ↦
      let late = rw k at h in
      let same : clock + ms ≡ clock' = ap (λ x. x.1) late in (cc, omega (arith, same))
]

gnb-IsProcess : IsProcess gnb
gnb-IsProcess = record {
  wait_raises = wait_until_raises;
  name_raises = λ w w' e h. cc;
  gdb_later = λ w. omega arith;
  name_later = λ w. omega arith;
  signal_later = λ s w. omega arith;
}

exit_process_example :
    (r : Result ℤ × ℕ) × (exit_process gnb 11 (pos 5000) 500 0 ≡ some r) × ExitFrom gnb 5000 500 0 r
exit_process_example = exit_process-ExitFrom gnb-IsProcess 4999 500 10 (omega arith) 0

abbrev remote : Channel
remote = record {
  World = ℕ;
  now = λ clock. clock;
  sleep = λ ms clock. clock + ms;
  exit_status_ready = λ clock. leb 3000 clock;
  recv_exit_status = λ clock. (pos 0, clock);
  kill_status = λ sig pid clock. (0, clock);
}

abbrev iperf : RemoteProcess
iperf = record { name = text "iperf"; pid = 42; returncode = none }

remote_wait_example :
    (x : Result ℤ × RemoteProcess × ℕ) × (wait remote 6 500 iperf 0 ≡ some x)
    × WaitEnds remote 500 iperf 0 x
remote_wait_example =
    wait-WaitEnds remote (λ ms clock. omega arith) 5 500 iperf 0 (omega arith) (omega arith)

-- The test bed is a counter; a criteria reads it.
abbrev at_most : ℕ → Option ℕ → Result Bool
at_most v none = raised type_error
at_most v (some limit) = ok (leb v limit)

abbrev nof_ko : Criteria ℕ ℕ
nof_ko = record {
  name = text "DU DL KOs";
  operator_method = at_most;
  callback = own (λ input bed. (ok bed, bed));
  stub_array = some 1;
  input = some 10;
  result = none;
}

abbrev table : Dict (Criteria ℕ ℕ)
table = (text "du.nof_ko_dl_le", nof_ko) ∷ []

abbrev active : List Text
active = text "du.nof_ko_dl_le" ∷ []

validate_example :
    (v : Verdict) × (d : Dict (Criteria ℕ ℕ)) × (w : ℕ) × (validate 1 false active (table, 12)
      ≡ (ok v, (d, w)))
    × Verdicts false (failing d active) v
    × KeptIn table d
    × All (HasResult d) active
unfolding text_eq
validate_example = validate-failing 0 false active table 12 (
  (
    nof_ko,
    (λ input bed. (ok bed, bed)),
    refl,
    refl,
    λ input w. (w, w, refl),
    λ v. (leb v 10, refl),
  ),
  tt,
)

abbrev criteria_table : CriteriaTable ℕ ℕ
criteria_table = record { criteria = table; order = [] }

registration_example :
    Registers
      (text "du.nof_ko_dl_le")
      nof_ko
      criteria_table
      (register (text "du.nof_ko_dl_le") nof_ko criteria_table)
    × Activates
        (text "du.nof_ko_dl_le")
        5
        criteria_table
        (add_criteria (text "du.nof_ko_dl_le") 5 criteria_table)
registration_example = registration_cases (text "du.nof_ko_dl_le") nof_ko 5 criteria_table

-- A process is known by its exit code, and all logs are empty.
abbrev bed : TestBed
bed = record {
  World = ℕ;
  Process = ℕ;
  exit_process = λ process timeout clock. (ok (pos process), clock);
  is_running = λ process clock. true;
  children = λ process clock. 0 ∷ [];
  close_log = λ clock. clock;
  read_lines = λ path clock. some [];
  search = λ regex line. none;
  findall = λ regex contents. [];
  rstrip = λ line. line;
}

abbrev cu_cp : SutHandler ℕ
cu_cp = record {
  process = some 130;
  last_log_array = text "/tmp/cu_cp.log" ∷ [];
  last_stop_result = record {
    exit_code = pos 0;
    error_count = 0;
    error_msg = [];
    warning_count = 0;
    warning_msg = [];
  };
  nof_lates = 0;
  nof_under = 0;
  nof_seq_err = 0;
  expected_exit_code_array = pos 0 ∷ pos 130 ∷ [];
  exit_children_first = true;
  error_regex = [];
  warning_regex = [];
}

logs_readable :
    (filepath : Text) (v : ℕ) → (counts : ℕ × ℕ × ℕ) × (extract_uhd bed filepath v ≡ ok counts)
unfolding extract_uhd
logs_readable filepath v = ((0, 0, 0), refl)

stop_sut_example :
    let out = stop_binary bed cu_cp 0 0 in
    Stopped bed out × ReportsCode bed cu_cp 5 130 0 out.1.last_stop_result
stop_sut_example =
    stop_binary-Stopped bed (λ process timeout clock. (pos process, clock, refl)) logs_readable
      cu_cp 0 130 0 (text "/tmp/cu_cp.log") [] refl refl
