-- ===== src/Jobs/Runner/Order.antt =====
-- The results that `run_stages` returns (pipeline/clipgauge_pipeline/jobs/queue.py).
use mathlib.Core.List.{append-nil, append_assoc, map-append}
use clipgauge.Common.{
  String, ◌≡◌, refl, sym, subst, ap, ◌∙◌, Bool, true, false, Option, none, some, List, [], ◌∷◌,
  ◌++◌, map, All, All-append, arith, Result, ok, err, if_ind, inl, inr, ◌⊎◌, ◌&&◌, ◌=s=◌,
}
use clipgauge.Json.{obj, Fields}
use clipgauge.Jobs.Store.{run_running}
use clipgauge.Jobs.Artifacts.{Code}
use clipgauge.Jobs.Checkpoint.{Cached, Files, Results, set_result, reusable, escapes}
use clipgauge.Jobs.Runner.Timing.{logged_ind, fail_stage_ind}
use clipgauge.Jobs.Runner.{
  Env, State, Turn, Ran, returned, stage_error, exception, Next, continue, finished, raised,
  Outcome, completed, aborted, proceed, use_cached, stored, output_of, store_result, ended, execute,
  check_disk, checked, use_or_run, step, after, run_loop, selected, run_stages, no_recommendations,
  dependency_of, run_status, disk_decision, estimate_raises, checks_disk,
}

abbrev pub names : List Turn → List String
names = map (λ t. t.0.name)

abbrev pub keys : Results → List String
keys = map (λ r. r.0)

-- The text is none of these.
abbrev IsNew : String → List String → Type 0
IsNew k = All (λ j. (j =s= k) ≡ false)

abbrev pub AreDistinct : List String → Type 0
AreDistinct [] = Unit
AreDistinct (k ∷ ks) = All (λ j. (k =s= j) ≡ false) ks × AreDistinct ks

set_result-IsNew :
    (rs : Results) (k : String) (v : Fields)
    → IsNew k (keys rs)
    → set_result rs k v ≡ rs ++ (k, v) ∷ []
unfolding set_result
set_result-IsNew [] k v h = refl
set_result-IsNew ((j, w) ∷ rs) k v h = ground (arith, set_result-IsNew rs k v h.1, h.0)

-- The last result says that nothing is recommended.
pub record StoppedEarly (rs : Results) : Type 0 where
  pub before : Results
  pub name : String
  pub content : Fields
  pub split : rs ≡ before ++ (name, content) ∷ []
  pub outcome : no_recommendations content ≡ true

-- How the results of a finished run compare with the stages it was given.
pub record Answers (known : List String) (ts : List Turn) (rs : Results) : Type 0 where
  pub answered : List String
  pub rest : List String
  pub split : names ts ≡ answered ++ rest
  pub in_order : keys rs ≡ known ++ answered
  pub whole : (rest ≡ []) ⊎ StoppedEarly rs

module _ (env : Env) where
  -- A pass that goes on has added the result of its stage, and only this one.
  abbrev Adds : Turn → State → Next → Type 0
  Adds t s (continue u) = (c : Fields) × (u.results ≡ set_result s.results t.0.name c)
  Adds t s (finished u) =
      (c : Fields) × (u.results ≡ set_result s.results t.0.name c) × (no_recommendations c ≡ true)
  Adds t s (raised f u) = Unit

  proceed-Adds :
      (t : Turn) (s u : State) (c : Fields)
      → u.results ≡ set_result s.results t.0.name c
      → Adds t s (proceed env c u)
  proceed-Adds t s u c e =
      if_ind (Adds t s) (no_recommendations c) (λ stop. (c, e, stop)) (λ _. (c, e))

  stored-Adds :
      (t : Turn) (s u : State) (output : Fields) (r : Result Code Files)
      → u.results ≡ s.results
      → Adds t s (stored env t u output r)
  stored-Adds t s u output (err c) e = fail_stage_ind env (Adds t s) t u _ _ _ tt (λ w e'. tt)
  stored-Adds t s u output (ok files) e =
      logged_ind env (Adds t s) t _ _ (proceed env output) tt
        (λ timing. proceed-Adds t s _ output (ap (λ r. set_result r t.0.name output) e))

  ended-Adds :
      (t : Turn) (dependency : String) (s u : State) (ran : Ran)
      → u.results ≡ s.results
      → Adds t s (ended env t dependency u ran)
  unfolding store_result
  ended-Adds t dependency s u (returned content) e =
      stored-Adds t s u (output_of env t dependency content) _ e
  ended-Adds t dependency s u (stage_error code message) e =
      fail_stage_ind env (Adds t s) t u _ _ _ tt (λ w e'. tt)
  ended-Adds t dependency s u (exception repr) e =
      fail_stage_ind env (Adds t s) t u _ _ _ tt (λ w e'. tt)

  execute-Adds :
      (t : Turn) (dependency : String) (s : State) → Adds t s (execute env t dependency s)
  unfolding execute
  execute-Adds (stage, o) dependency s =
      ended-Adds (stage, o) dependency s
        (record s {
          fs = (stage.run s.fs s.results).1;
          db = run_status env s.db stage run_running none o.started_at;
        })
        (stage.run s.fs s.results).0 refl

  check_disk-Adds :
      (t : Turn) (dependency : String) (s : State) → Adds t s (check_disk env t dependency s)
  unfolding check_disk
  check_disk-Adds (stage, o) dependency s =
      if_ind (Adds (stage, o) s) (estimate_raises env stage o s.results) (λ _. tt)
        (λ _.
          if_ind (Adds (stage, o) s)
            ((disk_decision env stage o s.results).blocked && checks_disk stage.name) (λ _. tt)
            (λ _. execute-Adds (stage, o) dependency s))

  checked-Adds :
      (t : Turn) (content : Fields) (dependency : String) (s : State) (answer : Option Bool)
      → Adds t s (checked env t content dependency s answer)
  unfolding use_cached
  checked-Adds t content dependency s none = tt
  checked-Adds t content dependency s (some true) =
      logged_ind env (Adds t s) t _ _ (proceed env content) tt
        (λ timing. proceed-Adds t s _ content refl)
  checked-Adds t content dependency s (some false) = check_disk-Adds t dependency s

  use_or_run-Adds :
      (t : Turn) (dependency : String) (s : State) (c : Cached)
      → Adds t s (use_or_run env t dependency s c)
  use_or_run-Adds (stage, o) dependency s (reusable (obj content)) =
      checked-Adds (stage, o) content dependency s (stage.artifacts_ok s.fs content)
  use_or_run-Adds t dependency s escapes = tt
  use_or_run-Adds t dependency s _ = check_disk-Adds t dependency s

  step-Adds : (t : Turn) (s : State) → Adds t s (step env t s)
  unfolding step
  step-Adds (stage, o) s =
      if_ind (Adds (stage, o) s) o.cancelled (λ _. tt)
        (λ _. use_or_run-Adds (stage, o) (dependency_of env (stage, o) s.results) s _)

  abbrev WhenCompleted : (State → Type 0) → Outcome → Type 0
  WhenCompleted P (completed s) = P s
  WhenCompleted P (aborted f s) = Unit

  added_keys :
      (rs rs' : Results) (k : String) (c : Fields)
      → IsNew k (keys rs)
      → rs' ≡ set_result rs k c
      → rs' ≡ rs ++ (k, c) ∷ []
  added_keys rs rs' k c new e = e ∙ set_result-IsNew rs k c new

  still-IsNew :
      (ks known : List String) (k : String)
      → All (λ j. (k =s= j) ≡ false) ks
      → All (λ j. IsNew j known) ks
      → All (λ j. IsNew j (known ++ k ∷ [])) ks
  still-IsNew [] known k apart new = tt
  still-IsNew (j ∷ ks) known k apart new =
      (All-append _ known (k ∷ []) new.0 (apart.0, tt), still-IsNew ks known k apart.1 new.1)

  keys-append_one :
      (rs : Results) (k : String) (c : Fields) → keys (rs ++ (k, c) ∷ []) ≡ keys rs ++ k ∷ []
  keys-append_one rs k c = map-append (λ r. r.0) rs ((k, c) ∷ [])

  WhenCompleted-map :
      (P Q : State → Type 0) (o : Outcome)
      → ((s : State) → P s → Q s)
      → WhenCompleted P o
      → WhenCompleted Q o
  WhenCompleted-map P Q (completed s) f h = f s h
  WhenCompleted-map P Q (aborted x s) f h = tt

  keys-added :
      (rs rs' : Results) (k : String) (c : Fields)
      → IsNew k (keys rs)
      → rs' ≡ set_result rs k c
      → keys rs' ≡ keys rs ++ k ∷ []
  keys-added rs rs' k c new e = ap keys (added_keys rs rs' k c new e) ∙ keys-append_one rs k c

  Answers-cons :
      (t : Turn) (ts : List Turn) (known : List String) (rs : Results)
      → Answers (known ++ t.0.name ∷ []) ts rs
      → Answers known (t ∷ ts) rs
  Answers-cons t ts known rs a = record {
    answered = t.0.name ∷ a.answered;
    rest = a.rest;
    split = ap (λ l. t.0.name ∷ l) a.split;
    in_order = a.in_order ∙ append_assoc known (t.0.name ∷ []) a.answered;
    whole = a.whole;
  }

  run_loop-Answers :
      (ts : List Turn) (s : State)
      → AreDistinct (names ts)
      → All (λ k. IsNew k (keys s.results)) (names ts)
      → WhenCompleted (λ u. Answers (keys s.results) ts u.results) (run_loop env ts s)
  unfolding run_loop
  run_loop-Answers [] s distinct new = record {
    answered = [];
    rest = [];
    split = refl;
    in_order = sym (append-nil (keys s.results));
    whole = inl refl;
  }
  run_loop-Answers (t ∷ ts) s distinct new =
      by_step (run_loop-Answers ts) (step env t s) (step-Adds t s)
    where
      by_step :
          ((u : State)
            → AreDistinct (names ts)
            → All (λ k. IsNew k (keys u.results)) (names ts)
            → WhenCompleted (λ w. Answers (keys u.results) ts w.results) (run_loop env ts u))
          → (n : Next) → Adds t s n
          → WhenCompleted
              (λ u. Answers (keys s.results) (t ∷ ts) u.results)
              (after env (run_loop env ts) n)
      by_step ih (continue u) (c, e) =
          let ks = keys-added s.results u.results t.0.name c new.0 e in
          WhenCompleted-map _ _ (run_loop env ts u)
            (λ w a. Answers-cons t ts (keys s.results) w.results (rw ks at a))
            (ih u distinct.1
              (rw ks (still-IsNew (names ts) (keys s.results) t.0.name distinct.0 new.1)))
      by_step ih (finished u) (c, e, stop) = record {
        answered = t.0.name ∷ [];
        rest = names ts;
        split = refl;
        in_order = keys-added s.results u.results t.0.name c new.0 e;
        whole = inr (record {
          before = s.results;
          name = t.0.name;
          content = c;
          split = added_keys s.results u.results t.0.name c new.0 e;
          outcome = stop;
        });
      }
      by_step ih (raised f u) a = tt

  no_keys : (ks : List String) → All (λ k. IsNew k []) ks
  no_keys [] = tt
  no_keys (k ∷ ks) = (tt, no_keys ks)

  -- A run that completes has one result for each stage that it was given, in their order, or for the
  -- first few of them, up to one whose outcome is that nothing is recommended.
  pub run_stages_results :
      (stop_after : Option String) (turns chosen : List Turn) (s s' : State)
      → selected env stop_after turns ≡ some chosen
      → AreDistinct (names chosen)
      → run_stages env stop_after turns s ≡ completed s'
      → Answers [] chosen s'.results
  unfolding run_stages
  run_stages_results stop_after turns chosen s s' picked distinct h =
      subst (WhenCompleted (λ u. Answers [] chosen u.results)) (rw picked at h)
        (run_loop-Answers chosen _ distinct (no_keys (names chosen)))
