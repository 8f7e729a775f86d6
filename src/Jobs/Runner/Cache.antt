-- ===== src/Jobs/Runner/Cache.antt =====
-- Resuming over reusable checkpoints (pipeline/clipgauge_pipeline/jobs/queue.py,
-- `cached_prefix_ready` and `run_stages`).
use clipgauge.Common.{
  String, ◌≡◌, refl, sym, subst, ap, ◌∙◌, Bool, true, false, Option, none, some, List, [], ◌∷◌, All,
  arith, if_ind,
}
use clipgauge.Json.{obj, Fields}
use clipgauge.Jobs.Store.{running, done}
use clipgauge.Jobs.Store.Lifecycle.{set_job_status-stage_runs}
use clipgauge.Jobs.Artifacts.{FileSystem}
use clipgauge.Jobs.Checkpoint.{Cached, Files, Results, set_result, reusable, escapes}
use clipgauge.Jobs.Runner.Timing.{IsDecodable, append-IsDecodable, logged-some}
use clipgauge.Jobs.Runner.{
  Env, State, Turn, Outcome, completed, job_status, use_cached, step, run_loop, run_stages, through,
  complete, after, proceed, no_recommendations, cached_row, cached_for, prefix_from,
  cached_prefix_ready,
}

-- Nothing that a stage writes has changed.
pub record IsSame (s s' : State) : Type 0 where
  pub files : s'.files ≡ s.files
  pub fs : s'.fs ≡ s.fs
  pub runs : s'.db.stage_runs ≡ s.db.stage_runs

abbrev pub NotCancelled : List Turn → Type 0
NotCancelled = All (λ t. t.1.cancelled ≡ false)

module _ (env : Env) where
  abbrev Completes : State → Outcome → Type 0
  Completes s o = (s' : State) × (o ≡ completed s') × IsSame s s'

  complete-Completes : (s u : State) → IsSame s u → Completes s (complete env u)
  complete-Completes s u h = (
    record u { db = job_status env u.db done none },
    refl,
    record {
      files = h.files;
      fs = h.fs;
      runs = set_job_status-stage_runs env.safe_message u.db env.job.id done none none ∙ h.runs;
    },
  )

  -- A stage whose checkpoint is reused leaves all that stages write.
  after-use_cached :
      (t : Turn) (content : Fields) (s u : State) (rest : State → Outcome)
      → IsSame s u
      → IsDecodable u.timing
      → ((w : State)
          → IsSame s w
          → IsDecodable w.timing
          → w.results ≡ set_result u.results t.0.name content
          → Completes s (rest w))
      → Completes s (after env rest (use_cached env t content u))
  unfolding use_cached
  after-use_cached t content s u rest same readable h =
      let kept = λ (w : State) (files : w.files ≡ u.files) (fs : w.fs ≡ u.fs) (db : w.db ≡ u.db).
        let i : IsSame s w = record {
          files = files ∙ same.files;
          fs = fs ∙ same.fs;
          runs = ap (λ d. d.stage_runs) db ∙ same.runs;
        } in
        i in
      let (timing, written, decodable) =
        append-IsDecodable env.job u.timing (cached_row t.0 content) readable in
      subst (λ n. Completes s (after env rest n))
        (sym (logged-some env t (cached_row t.0 content) _ (proceed env content) timing written))
        (if_ind (λ n. Completes s (after env rest n)) (no_recommendations content)
          (λ _. complete-Completes s _ (kept _ refl refl refl))
          (λ _. h _ (kept _ refl refl refl) decodable refl))

  step-use_cached :
      (t : Turn) (u : State) (content : Fields)
      → t.1.cancelled ≡ false
      → cached_for env t u.fs u.files u.results ≡ reusable (obj content)
      → t.0.artifacts_ok u.fs content ≡ some true
      → step env t u ≡ use_cached env t content u
  unfolding step
  step-use_cached t u content live found intact = ground arith

  -- The first turn of a prefix that is ready.
  prefix_from-cons :
      (fs : FileSystem) (files : Files) (t : Turn) (ts : List Turn) (results : Results)
      → prefix_from env fs files (t ∷ ts) results ≡ some true
      → (content : Fields) × (cached_for env t fs files results ≡ reusable (obj content))
        × (t.0.artifacts_ok fs content ≡ some true)
        × (prefix_from env fs files ts (set_result results t.0.name content) ≡ some true)
  unfolding prefix_from
  prefix_from-cons fs files t ts results h = by_read (cached_for env t fs files results) refl
    where
      by_check :
          (content : Fields) (answer : Option Bool)
          → cached_for env t fs files results ≡ reusable (obj content)
          → t.0.artifacts_ok fs content ≡ answer
          → (content' : Fields) × (cached_for env t fs files results ≡ reusable (obj content'))
            × (t.0.artifacts_ok fs content' ≡ some true)
            × (prefix_from env fs files ts (set_result results t.0.name content') ≡ some true)
      by_check content (some true) e k = (content, e, k, ground arith)
      by_check content _ e k = absurd (ground arith)

      by_read :
          (c : Cached)
          → cached_for env t fs files results ≡ c
          → (content' : Fields) × (cached_for env t fs files results ≡ reusable (obj content'))
            × (t.0.artifacts_ok fs content' ≡ some true)
            × (prefix_from env fs files ts (set_result results t.0.name content') ≡ some true)
      by_read (reusable (obj content)) e = by_check content (t.0.artifacts_ok fs content) e refl
      by_read escapes e = absurd (ground arith)
      by_read _ e = absurd (ground arith)

  run_loop-Completes :
      (ts : List Turn) (s u : State) (results : Results)
      → NotCancelled ts
      → prefix_from env s.fs s.files ts results ≡ some true
      → IsSame s u
      → IsDecodable u.timing
      → u.results ≡ results
      → Completes s (run_loop env ts u)
  unfolding run_loop
  run_loop-Completes [] s u results live ready same readable e = complete-Completes s u same
  run_loop-Completes (t ∷ ts) s u results live ready same readable e =
      let (content, found, intact, ready') = prefix_from-cons s.fs s.files t ts results ready in
      let found' : cached_for env t u.fs u.files u.results ≡ reusable (obj content) =
        rw (same.fs) (rw (same.files) (rw e found)) in
      let intact' : t.0.artifacts_ok u.fs content ≡ some true = rw (same.fs) intact in
      rw (step-use_cached t u content live.0 found' intact') (
        after-use_cached t content s u (run_loop env ts) same readable (λ w same' readable' e'.
          run_loop-Completes ts s w (set_result results t.0.name content) live.1 ready' same'
            readable' (e' ∙ ap (λ r. set_result r t.0.name content) e)))

  -- When `cached_prefix_ready` says so, a run up to the same stage completes and changes no file, no
  -- checkpoint and no stage row, unless it is cancelled or the timing file is no UTF-8: no stage runs.
  pub cached_prefix_ready_sound :
      (stop : String) (turns chosen : List Turn) (s : State)
      → through env stop turns ≡ some chosen
      → NotCancelled chosen
      → IsDecodable s.timing
      → cached_prefix_ready env stop turns s ≡ some true
      → (s' : State) × (run_stages env (some stop) turns s ≡ completed s') × IsSame s s'
  unfolding run_stages cached_prefix_ready
  cached_prefix_ready_sound stop turns chosen s picked live readable ready =
      let ready' : prefix_from env s.fs s.files chosen [] ≡ some true = ground arith in
      rw picked (
        run_loop-Completes chosen s _ [] live ready'
          (record {
            files = refl;
            fs = refl;
            runs = set_job_status-stage_runs env.safe_message s.db env.job.id running none none;
          })
          readable refl)
