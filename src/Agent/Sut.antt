-- ===== src/Agent/Sut.antt =====
-- retina/agent/src/retina/agent/features/sut_handler.py: stopping the software under test and searching its logs. The
-- executor, the file system and the module `re` are parameters.
pub mod Stopped
use ocudu_infra_srs.Prelude.{
  ℕ, zero, suc, ◌+◌, Bool, true, false, not, ◌&&◌, ◌||◌, Option, none, some, List, [], ◌∷◌, ◌++◌,
  map, ◌==◌, if◌then◌else◌, length, any, flat_map,
}
use ocudu_infra_srs.Prelude.Text.{Text, text, text_eq}
use ocudu_infra_srs.Prelude.Int.{ℤ, pos, negsuc, int_eq}
use ocudu_infra_srs.Prelude.Action.{
  Result, ok, raised, Exception, index_error, file_not_found_error, Action, pure, ◌>>=◌,
}

pub record StopInfo : Type 0 where
  pub exit_code : ℤ
  pub error_count : ℕ
  pub error_msg : Text
  pub warning_count : ℕ
  pub warning_msg : Text

-- The lines of a file that exists; `search` is `re.search` with `match.group()`, and `findall` is `re.findall`
-- with the three groups as numbers. `close_log` flushes and closes the file descriptor of the log.
pub record TestBed : Type 1 where
  pub World : Type 0
  pub Process : Type 0
  pub exit_process : Process → ℕ → Action World ℤ
  pub is_running : Process → World → Bool
  pub children : Process → World → List Process
  pub close_log : World → World
  pub read_lines : Text → World → Option (List Text)
  pub search : Text → Text → Option Text
  pub findall : Text → Text → List (ℕ × ℕ × ℕ)
  pub rstrip : Text → Text

-- A driver: the state of the handler, and the properties that a subclass overrides.
pub record SutHandler (Process : Type 0) : Type 0 where
  pub process : Option Process
  pub last_log_array : List Text
  pub last_stop_result : StopInfo
  pub nof_lates : ℕ
  pub nof_under : ℕ
  pub nof_seq_err : ℕ
  pub expected_exit_code_array : List ℤ
  pub exit_children_first : Bool
  pub error_regex : Text
  pub warning_regex : Text

abbrev pub exit_process_timeout : ℕ
exit_process_timeout = 5

is_zero : ℤ → Bool
is_zero code = int_eq code (pos 0)

-- The code that is reported for that of the process: -256 stands for a child that failed.
unfoldable pub tweak_exit_code : List ℤ → Bool → ℤ → ℤ
unfolding is_zero
tweak_exit_code expected child_failed rc =
    let code = if any (λ e. int_eq e rc) expected then pos 0 else rc in
    if is_zero code && child_failed then negsuc 255 else code

matches_in : (Text → Option Text) → List Text → List Text
matches_in match [] = []
matches_in match (line ∷ lines) =
    let rest = matches_in match lines in elim (match line) [ none ↦ rest | some m ↦ m ∷ rest ]

lines_of : Option (List Text) → List Text
lines_of none = []
lines_of (some lines) = lines

first_or_blank : List Text → Text
first_or_blank [] = text ""
first_or_blank (m ∷ ms) = m

abbrev add_counts : ℕ × ℕ × ℕ → ℕ × ℕ × ℕ → ℕ × ℕ × ℕ
add_counts (a, b, c) (x, y, z) = (a + x, b + y, c + z)

sum_counts : List (ℕ × ℕ × ℕ) → ℕ × ℕ × ℕ
sum_counts [] = (0, 0, 0)
sum_counts (c ∷ cs) = add_counts c (sum_counts cs)

module _ (bed : TestBed) where
  open bed use {World, Process}

  unfoldable pub re_search_files : List Text → Text → World → List Text
  unfolding matches_in lines_of
  re_search_files paths regex w =
      flat_map (λ path. matches_in (bed.search regex) (lines_of (bed.read_lines path w))) paths

  counts_in : Option (List Text) → Result (ℕ × ℕ × ℕ)
  unfolding sum_counts
  counts_in none = raised file_not_found_error
  counts_in (some lines) =
      let contents = flat_map (λ line. bed.rstrip line ++ text "\n") lines in
      ok (
        sum_counts (
          bed.findall (text "UHD status: L=(\\d+) U=(\\d+) S=(\\d+)") contents
          ++ bed.findall (text "Late: (\\d+); Underflow: (\\d+); Overflow: (\\d+)") contents))

  unfoldable pub extract_uhd : Text → World → Result (ℕ × ℕ × ℕ)
  unfolding counts_in
  extract_uhd filepath w = counts_in (bed.read_lines filepath w)

  -- Whether a child process did not end with 0.
  unfoldable pub end_children : ℕ → List Process → Action World Bool
  unfolding is_zero
  end_children timeout [] = pure false
  end_children timeout (child ∷ rest) = do
    exit_code ← bed.exit_process child timeout
    others ← end_children timeout rest
    pure (not (is_zero exit_code) || others)

  unfoldable pub end_process : SutHandler Process → ℕ → Process → Action World (ℤ × Bool)
  end_process h timeout process w =
      (do
        child_failed ←
            (if h.exit_children_first && bed.is_running process w
              then end_children timeout (bed.children process w)
              else pure false)
        rc ← bed.exit_process process timeout
        pure (rc, child_failed))
        w

  found_in : Text → List Text → World → List Text
  found_in regex paths w = if text_eq regex (text "") then [] else re_search_files paths regex w

  unfoldable pub stop_info : SutHandler Process → ℤ → Bool → World → StopInfo
  unfolding found_in first_or_blank
  stop_info h rc child_failed w =
      let error_list = found_in h.error_regex h.last_log_array w in
      let warning_list = found_in h.warning_regex h.last_log_array w in
      record {
        exit_code = tweak_exit_code h.expected_exit_code_array child_failed rc;
        error_count = length error_list;
        error_msg = first_or_blank error_list;
        warning_count = length warning_list;
        warning_msg = first_or_blank warning_list;
      }

  first_counts : List Text → World → Result (ℕ × ℕ × ℕ)
  first_counts [] w = raised index_error
  first_counts (path ∷ paths) w = extract_uhd path w

  with_counts :
      SutHandler Process → Result (ℕ × ℕ × ℕ) → World → Result StopInfo × SutHandler Process × World
  with_counts h (raised e) w = (raised e, h, w)
  with_counts h (ok (lates, under, seq_err)) w = (
    ok h.last_stop_result,
    record h { nof_lates = lates; nof_under = under; nof_seq_err = seq_err },
    w,
  )

  after_end :
      SutHandler Process → Result (ℤ × Bool) × World → Result StopInfo × SutHandler Process × World
  unfolding with_counts first_counts
  after_end h (raised e, w) = (raised e, h, w)
  after_end h (ok (rc, child_failed), w) =
      let closed = bed.close_log w in
      with_counts
        (record h { process = none; last_stop_result = stop_info h rc child_failed closed })
        (first_counts h.last_log_array closed) closed

  stop_some :
      Option Process → SutHandler Process → ℕ → World → Result StopInfo × SutHandler Process × World
  unfolding after_end
  stop_some none h stop_timeout w = (ok h.last_stop_result, h, w)
  stop_some (some process) h stop_timeout w =
      after_end h
        (end_process h (if stop_timeout == 0 then exit_process_timeout else stop_timeout) process w)

  -- `_stop_binary`
  unfoldable pub stop_binary :
      SutHandler Process → ℕ → World → Result StopInfo × SutHandler Process × World
  unfolding stop_some
  stop_binary h stop_timeout w = stop_some h.process h stop_timeout w
