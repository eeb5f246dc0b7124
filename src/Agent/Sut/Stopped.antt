-- ===== src/Agent/Sut/Stopped.antt =====
-- What stopping the software under test reports.
use ocudu_infra_srs.Prelude.{
  ℕ, ◌≡◌, ◌↔◌, refl, sym, ap, subst, ◌∙◌, ◌⊎◌, inl, inr, Bool, true, false, not, ◌&&◌, ◌||◌, none,
  some, List, [], ◌∷◌, arith, any, if◌then◌else◌, Bool-cases, ◌==◌, All,
}
use ocudu_infra_srs.Prelude.Text.{Text}
use ocudu_infra_srs.Prelude.Int.{ℤ, pos, negsuc, int_eq}
use ocudu_infra_srs.Prelude.Action.{Result, ok}
use ocudu_infra_srs.Agent.Sut.{
  TestBed, SutHandler, StopInfo, tweak_exit_code, is_zero, exit_process_timeout, end_children,
  end_process, stop_info, extract_uhd, first_counts, with_counts, after_end, stop_some, stop_binary,
}

is_zero_of : (code : ℤ) → is_zero code ≡ true → code ≡ pos 0
unfolding is_zero
is_zero_of (pos n) h = let e : n ≡ 0 = ground arith in ap pos e
is_zero_of (negsuc n) h = cc

-- An expected code, or 0, and no failed child.
abbrev pub IsGoodEnd : List ℤ → Bool → ℤ → Type 0
IsGoodEnd expected child_failed rc =
    ((any (λ e. int_eq e rc) expected ≡ true) ⊎ (rc ≡ pos 0)) × (child_failed ≡ false)

tweaked_of :
    (expected : List ℤ) (child_failed : Bool) (rc : ℤ)
    → IsGoodEnd expected child_failed rc
    → tweak_exit_code expected child_failed rc ≡ pos 0
unfolding tweak_exit_code is_zero
tweaked_of expected child_failed rc (inl h, ok_children) = rw (h, ok_children) refl
tweaked_of expected child_failed rc (inr h, ok_children) =
    elim (Bool-cases (any (λ e. int_eq e rc) expected)) [
      | inl k ↦ rw (k, ok_children) refl
      | inr k ↦ rw (k, ok_children, h) refl
    ]

not_tweaked :
    (code : ℤ) (b : Bool)
    → (if is_zero code && b then negsuc 255 else code) ≡ pos 0
    → (code ≡ pos 0) × (b ≡ false)
unfolding is_zero
not_tweaked code false h = elim (Bool-cases (is_zero code)) [
  | inl k ↦ (is_zero_of code k, refl)
  | inr k ↦ (rw k at h, refl)
]
not_tweaked code true h = elim (Bool-cases (is_zero code)) [
  | inl k ↦ let clash : negsuc 255 ≡ pos 0 = rw k at h in cc
  | inr k ↦
      let zero_code : code ≡ pos 0 = rw k at h in
      let clash : true ≡ false = ap is_zero (sym zero_code) ∙ k in cc
]

of_tweaked :
    (expected : List ℤ) (child_failed : Bool) (rc : ℤ)
    → tweak_exit_code expected child_failed rc ≡ pos 0
    → IsGoodEnd expected child_failed rc
unfolding tweak_exit_code
of_tweaked expected child_failed rc h =
    let (code, quiet) =
      not_tweaked (if any (λ e. int_eq e rc) expected then pos 0 else rc) child_failed h in
    elim (Bool-cases (any (λ e. int_eq e rc) expected)) [
      | inl k ↦ (inl k, quiet)
      | inr k ↦ (inr (rw k at code), quiet)
    ]

-- How a handler is left: without a process, with the result kept, which every later stop gives again without a
-- change of anything.
abbrev pub Stopped : (bed : TestBed) → Result StopInfo × SutHandler bed.Process × bed.World → Type 0
Stopped bed (r, h, w) =
    (r ≡ ok h.last_stop_result)
    × (h.process ≡ none)
    × ((stop_timeout : ℕ) (v : bed.World)
        → stop_binary bed h stop_timeout v ≡ (ok h.last_stop_result, h, v))

-- Children are ended one after the other, each with its code.
abbrev pub ChildrenEnd :
    (bed : TestBed) → ℕ → List bed.Process → bed.World → List ℤ → bed.World → Type 0
ChildrenEnd bed timeout [] w [] w' = w ≡ w'
ChildrenEnd bed timeout (c ∷ cs) w (code ∷ codes) w' =
    (v : bed.World) × (bed.exit_process c timeout w ≡ (ok code, v))
    × ChildrenEnd bed timeout cs v codes w'
ChildrenEnd bed timeout _ w _ w' = ⊥

-- The children that are ended before a process.
abbrev pub ended_first :
    (bed : TestBed) → SutHandler bed.Process → bed.Process → bed.World → List bed.Process
ended_first bed h process w =
    if h.exit_children_first && bed.is_running process w then bed.children process w else []

-- The children that are to be ended first end with `codes`, and then the process with `rc`; the exit code that is kept
-- is 0 exactly when `rc` is an expected code or 0, and every code of a child is 0.
abbrev pub ReportsCode :
    (bed : TestBed) → SutHandler bed.Process → ℕ → bed.Process → bed.World → StopInfo → Type 0
ReportsCode bed h timeout process w info =
    (codes : List ℤ) × (v : bed.World) × (rc : ℤ) × (u : bed.World) × ChildrenEnd bed timeout
      (ended_first bed h process w) w codes v
    × (bed.exit_process process timeout v ≡ (ok rc, u))
    × ((info.exit_code ≡ pos 0) ↔ (
        ((any (λ e. int_eq e rc) h.expected_exit_code_array ≡ true) ⊎ (rc ≡ pos 0))
        × All (λ c. c ≡ pos 0) codes))

zero_is : (code : ℤ) → code ≡ pos 0 → is_zero code ≡ true
unfolding is_zero
zero_is code h = rw h refl

-- `not (is_zero code) || others`
some_failed :
    (code : ℤ) (others : Bool) (codes : List ℤ)
    → (others ≡ false) ↔ All (λ c. c ≡ pos 0) codes
    → (not (is_zero code) || others ≡ false) ↔ ((code ≡ pos 0) × All (λ c. c ≡ pos 0) codes)
some_failed code others codes h = elim (Bool-cases (is_zero code)) [
  | inl k ↦ rw k (λ e. (is_zero_of code k, h.0 e), λ x. h.1 x.1)
  | inr k ↦ rw k (λ e. cc, λ x. let clash : true ≡ false = sym (zero_is code x.0) ∙ k in cc)
]

IsGoodEnd-codes :
    (expected : List ℤ) (failed : Bool) (rc : ℤ) (codes : List ℤ)
    → (failed ≡ false) ↔ All (λ c. c ≡ pos 0) codes
    → (tweak_exit_code expected failed rc ≡ pos 0)
      ↔ (((any (λ e. int_eq e rc) expected ≡ true) ⊎ (rc ≡ pos 0)) × All (λ c. c ≡ pos 0) codes)
IsGoodEnd-codes expected failed rc codes h = (
  λ e. let (good, quiet) = of_tweaked expected failed rc e in (good, h.0 quiet),
  λ x. tweaked_of expected failed rc (x.0, h.1 x.1),
)

module _ (bed : TestBed) where
  open bed use {World, Process}

  module _
      (exits : (process : Process) (timeout : ℕ) (w : World)
        → (rc : ℤ) × (w' : World) × (bed.exit_process process timeout w ≡ (ok rc, w'))) where
    children_end :
        (timeout : ℕ) (children : List Process) (w : World)
        → (failed : Bool) × (codes : List ℤ) × (w' : World) × (end_children bed timeout children w
            ≡ (ok failed, w'))
          × ChildrenEnd bed timeout children w codes w'
          × ((failed ≡ false) ↔ All (λ c. c ≡ pos 0) codes)
    unfolding end_children
    children_end timeout [] w = (false, [], w, refl, refl, (λ e. tt, λ x. refl))
    children_end timeout (child ∷ rest) w =
        let (rc, v, e) = exits child timeout w in
        let (failed, codes, w', k, ends, says) = children_end timeout rest v in
        (
          not (is_zero rc) || failed,
          rc ∷ codes,
          w',
          rw (e, k) refl,
          (v, e, ends),
          some_failed rc failed codes says,
        )

    process_ends :
        (h : SutHandler Process) (timeout : ℕ) (process : Process) (w : World)
        → (rc : ℤ) × (failed : Bool) × (codes : List ℤ) × (v w' : World) × (end_process bed h
              timeout process w
            ≡ (ok (rc, failed), w'))
          × ChildrenEnd bed timeout (ended_first bed h process w) w codes v
          × (bed.exit_process process timeout v ≡ (ok rc, w'))
          × ((failed ≡ false) ↔ All (λ c. c ≡ pos 0) codes)
    unfolding end_process
    process_ends h timeout process w =
        elim (Bool-cases (h.exit_children_first && bed.is_running process w)) [
          | inl k ↦
              let (failed, codes, v, e, ends, says) =
                children_end timeout (bed.children process w) w in
              let (rc, w', e') = exits process timeout v in
              (rc, failed, codes, v, w', rw (k, e, e') refl, rw k ends, e', says)
          | inr k ↦
              let (rc, w', e) = exits process timeout w in
              (rc, false, [], w, w', rw (k, e) refl, rw k refl, e, (λ x. tt, λ x. refl))
        ]

    first_readable :
        (path : Text) (paths : List Text) (counts : ℕ × ℕ × ℕ) (v : World) (logs : List Text)
        → logs ≡ path ∷ paths
        → extract_uhd bed path v ≡ ok counts
        → first_counts bed logs v ≡ ok counts
    unfolding first_counts
    first_readable path paths counts v logs e k = rw e k

    ended :
        (h : SutHandler Process) (timeout : ℕ) (process : Process) (w : World) (path : Text)
        (paths : List Text)
        → ((filepath : Text) (v : World)
            → (counts : ℕ × ℕ × ℕ) × (extract_uhd bed filepath v ≡ ok counts))
        → h.last_log_array ≡ path ∷ paths
        → let out = after_end bed h (end_process bed h timeout process w) in
          Stopped bed out × ReportsCode bed h timeout process w out.1.last_stop_result
    unfolding after_end with_counts stop_binary stop_some stop_info
    ended h timeout process w path paths readable logs =
        let (rc, failed, codes, v, w', e, ends, e', says) = process_ends h timeout process w in
        let (counts, k) = readable path (bed.close_log w') in
        let first = first_readable path paths counts (bed.close_log w') h.last_log_array logs k in
        let code = IsGoodEnd-codes h.expected_exit_code_array failed rc codes says in
        rw (e, first) ((refl, refl, λ stop_timeout u. refl), (codes, v, rc, w', ends, e', code))

-- When the executor ends processes, the driver has a log and its logs can be read, stopping a running program returns
-- a result that every later stop gives again without a change of anything. The children are ended first where the
-- driver wants it and the process is running, each with a code, then the process; and the exit code of the
-- result is 0 exactly when the process ended with an expected code or 0 and every one of those codes is 0. A
-- timeout of 0 stands for 5 seconds.
pub stop_binary-Stopped :
    (bed : TestBed)
    → ((process : bed.Process) (timeout : ℕ) (w : bed.World)
        → (rc : ℤ) × (w' : bed.World) × (bed.exit_process process timeout w ≡ (ok rc, w')))
    → ((filepath : Text) (v : bed.World)
        → (counts : ℕ × ℕ × ℕ) × (extract_uhd bed filepath v ≡ ok counts))
    → (h : SutHandler bed.Process) (stop_timeout : ℕ) (process : bed.Process) (w : bed.World)
      (path : Text) (paths : List Text)
    → h.process ≡ some process
    → h.last_log_array ≡ path ∷ paths
    → let out = stop_binary bed h stop_timeout w in
      Stopped bed out
      × ReportsCode bed h
          (if stop_timeout == 0 then 5 else stop_timeout)
          process
          w
          out.1.last_stop_result
unfolding stop_binary stop_some
stop_binary-Stopped bed exits readable h stop_timeout process w path paths running logs =
    subst
      (λ o.
        let out = stop_some bed o h stop_timeout w in
        Stopped bed out
        × ReportsCode bed h (if stop_timeout == 0 then 5 else stop_timeout) process w
            out.1.last_stop_result)
      (sym running)
      (ended bed exits h (if stop_timeout == 0 then exit_process_timeout else stop_timeout) process
        w path paths readable logs)
