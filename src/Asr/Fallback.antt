-- ===== src/Asr/Fallback.antt =====
-- What a transcription of pipeline/clipgauge_pipeline/asr/stage.py comes to.
use clipgauge.Common.{
  ℕ, ◌/◌, max, String, ◌≡◌, ◌≢◌, refl, sym, ap, subst, ◌∙◌, ◌⊎◌, inl, inr, Bool, true, false, ◌||◌,
  not, All, map, ◌++◌, Option, none, some, List, [], ◌∷◌, ◌==◌, ◌=s=◌, arith, if◌then◌else◌, if_ind,
  Result, ok, err,
}
use clipgauge.Text.Lower.{has_lower, has_any_lower}
use clipgauge.Asr.{
  Raised, resource_error, exhausted_code, code_of_substep, code_of_text, raised_of, with_tried,
  on_cpu_model, gpu_batch_size, Substep, AsrCode, asr_failure_code, Attempt, LoopError, Tried,
  after_attempt, on_transcription, try_batches, transcribe_model, Setting, Recognised, Recognition,
  recognise, fall_back_on_cpu, conclude_tried, transcribe_with_fallback,
}
use clipgauge.Asr.Batches.{Halves, batch_sequence-Halves}

module _ {A : Type 0} (run : ℕ → Result Raised A) where
  -- The result of the last batch: its transcript, or its error, which no smaller batch mends; never
  -- the loop's assertion.
  abbrev pub IsLast : ℕ → Result LoopError A → Type 0
  IsLast b (ok a) = run b ≡ ok a
  IsLast b (err (LoopError.model_error e)) =
      (run b ≡ err e) × ((resource_error e ≡ false) ⊎ (b ≡ 1))
  IsLast b (err LoopError.assertion) = ⊥

  abbrev pub is_ok : Result LoopError A → Bool
  is_ok (ok a) = true
  is_ok (err e) = false

  -- A batch for which the memory was not enough.
  abbrev pub RanOut : ℕ → Type 0
  RanOut b = (e : Raised) × (run b ≡ err e) × (resource_error e ≡ true)

  abbrev pub entry : Bool → ℕ → Attempt
  entry succeeded b = record { batch_size = b; succeeded = succeeded }

  -- The attempts are those of the sizes, one after the other: for all before the last one the memory
  -- was not enough, and the last one gives the result.
  pub record Explained (sizes : List ℕ) (t : Tried A) : Type 0 where
    pub before : List ℕ
    pub batch : ℕ
    pub after : List ℕ
    pub in_order : sizes ≡ before ++ batch ∷ after
    pub attempted : t.attempts ≡ map (entry false) before ++ entry (is_ok t.result) batch ∷ []
    pub ran_out : All RanOut before
    pub last : IsLast batch t.result

  -- It ends with the first of the sizes.
  ends_here :
      (b : ℕ) (sizes : List ℕ) (r : Result LoopError A)
      → IsLast b r
      → Explained (b ∷ sizes) (record { attempts = entry (is_ok r) b ∷ []; result = r })
  ends_here b sizes r h = record {
    before = [];
    batch = b;
    after = sizes;
    in_order = refl;
    attempted = refl;
    ran_out = tt;
    last = h;
  }

  Explained-cons :
      (b : ℕ) (sizes : List ℕ) (t : Tried A)
      → RanOut b
      → Explained sizes t
      → Explained (b ∷ sizes) (after_attempt (entry false b) t)
  Explained-cons b sizes t out h = record {
    before = b ∷ h.before;
    batch = h.batch;
    after = h.after;
    in_order = ap (λ (bs : List ℕ). b ∷ bs) h.in_order;
    attempted = ap (λ (as' : List Attempt). entry false b ∷ as') h.attempted;
    ran_out = (out, h.ran_out);
    last = h.last;
  }

  on_transcription-Explained :
      (b : ℕ) (sizes : List ℕ) (r : Result Raised A) (rest : Tried A)
      → run b ≡ r
      → ((b == 1) ≡ false → Explained sizes rest)
      → Explained (b ∷ sizes) (on_transcription b r rest)
  on_transcription-Explained b sizes (ok a) rest e h = ends_here b sizes (ok a) e
  on_transcription-Explained b sizes (err x) rest e h =
      if_ind (Explained (b ∷ sizes)) (not (resource_error x) || b == 1)
        (λ last. ends_here b sizes (err (LoopError.model_error x)) (e, final last))
        (λ more.
          Explained-cons b sizes rest (x, e, ground (arith, more)) (h (ground (arith, more))))
    where
      final : (not (resource_error x) || b == 1) ≡ true → (resource_error x ≡ false) ⊎ (b ≡ 1)
      final last = ground (arith, last)

  try_batches-Explained :
      (c : ℕ) (sizes : List ℕ) (last : Option Raised)
      → Halves c sizes
      → Explained sizes (try_batches run last sizes)
  unfolding try_batches
  try_batches-Explained c [] last h = elim h [ ]
  try_batches-Explained c (b ∷ []) last (same, one) =
      on_transcription-Explained b [] (run b) _ refl (λ more. ground (arith, same, one, more))
  try_batches-Explained c (b ∷ d ∷ sizes) last (same, many, rest) =
      on_transcription-Explained b (d ∷ sizes) (run b) _ refl
        (λ _. try_batches-Explained (c / 2) (d ∷ sizes) _ rest)

  -- A transcription always ends. There is a list of sizes that starts with the given one, or with 1
  -- for 0, halves from one to the next and ends with 1; the attempts are made for these in turn, each
  -- but the last one failed for want of memory, and the last one gives the result: the model's
  -- transcript, or an error of the model that is none of memory or was raised for a batch of one;
  -- never the assertion.
  pub transcribe_model-Explained :
      (initial : ℕ)
      → (sizes : List ℕ) × (t : Tried A) × (transcribe_model run initial ≡ some t)
        × Halves (max 1 initial) sizes
        × Explained sizes t
  unfolding transcribe_model
  transcribe_model-Explained initial =
      let (sizes, found, halves) = batch_sequence-Halves initial in
      (
        sizes,
        try_batches run none sizes,
        rw (transcribe_model, found) refl,
        halves,
        try_batches-Explained (max 1 initial) sizes none halves,
      )

abbrev IsFailure : AsrCode → Type 0
IsFailure code = code ≢ AsrCode.gpu_fallback_requires_approval

exhausted_code_never : (at : Substep) → IsFailure (exhausted_code at)
exhausted_code_never Substep.model_load h = ground arith
exhausted_code_never Substep.import_runtime h = ground arith
exhausted_code_never Substep.audio_load h = ground arith
exhausted_code_never Substep.transcribe h = ground arith
exhausted_code_never Substep.alignment_model_load h = ground arith
exhausted_code_never Substep.alignment h = ground arith
exhausted_code_never Substep.checkpoint_write h = ground arith

code_of_substep_never : (at : Substep) → IsFailure (code_of_substep at)
code_of_substep_never Substep.model_load h = ground arith
code_of_substep_never Substep.import_runtime h = ground arith
code_of_substep_never Substep.audio_load h = ground arith
code_of_substep_never Substep.transcribe h = ground arith
code_of_substep_never Substep.alignment_model_load h = ground arith
code_of_substep_never Substep.alignment h = ground arith
code_of_substep_never Substep.checkpoint_write h = ground arith

code_of_text_never : (e : Raised) (at : Substep) → IsFailure (code_of_text e at)
code_of_text_never e at =
    if_ind IsFailure
      (has_any_lower ("dll" ∷ "shared object" ∷ "cannot import" ∷ "module named" ∷ []) e.text)
      (λ _ h. ground arith)
      (λ _.
        if_ind IsFailure (has_lower "vad" e.text) (λ _ h. ground arith)
          (λ _.
            if_ind IsFailure
              (has_any_lower ("unsupported" ∷ "not supported" ∷ "compute type" ∷ []) e.text)
              (λ _ h. ground arith)
              (λ _.
                if_ind IsFailure (resource_error e) (λ _. exhausted_code_never at)
                  (λ _. code_of_substep_never at))))

asr_failure_code_never : (e : Raised) (at : Substep) → IsFailure (asr_failure_code e at)
unfolding asr_failure_code
asr_failure_code_never e at = by_audio e.audio_code
  where
    by_audio :
        (code : Option String)
        → IsFailure (elim code [
          | some c ↦
              if c =s= "WAV_TOO_LARGE" then AsrCode.resource_limit else AsrCode.audio_load_failed
          | none ↦ code_of_text e at
        ])
    by_audio (some c) =
        if_ind IsFailure (c =s= "WAV_TOO_LARGE") (λ _ h. ground arith) (λ _ h. ground arith)
    by_audio none = code_of_text_never e at

module _ {A : Type 0} (s : Setting A) where
  -- The transcript is that of the setting's own model and device, or the failure has been approved
  -- to be mended by the CPU's model, and it is that one's. The error that asks for an approval is
  -- raised off the CPU, without one, and only then.
  abbrev pub Justified : Result AsrCode (Recognised A) → Type 0
  Justified (ok x) =
      ((x.on_device ≡ s.device)
        × (x.with_compute_type ≡ s.compute_type)
        × (b : ℕ) × (s.run b ≡ ok x.transcript))
      ⊎ ((x.on_device ≡ "cpu")
          × (x.with_compute_type ≡ s.cpu_compute_type)
          × (s.allow_cpu_fallback ≡ true)
          × (run : ℕ → Result Raised A) × (s.load_cpu_model ≡ ok run)
          × (b : ℕ) × (run b ≡ ok x.transcript))
  Justified (err code) =
      ((code ≡ AsrCode.gpu_fallback_requires_approval)
        × (s.allow_cpu_fallback ≡ false)
        × ((s.device =s= "cpu") ≡ false))
      ⊎ ((code ≢ AsrCode.gpu_fallback_requires_approval)
          × (((s.device =s= "cpu") ≡ true) ⊎ (s.allow_cpu_fallback ≡ true)))

  recognise-Justified :
      (before : List Attempt) (t : Tried A) (device compute_type : String)
      → ((x : A)
          → t.result ≡ ok x
          → Justified (
              ok (record { transcript = x; on_device = device; with_compute_type = compute_type })))
      → (((s.device =s= "cpu") ≡ true) ⊎ (s.allow_cpu_fallback ≡ true))
      → Justified (recognise before t device compute_type).result
  recognise-Justified before t device compute_type h why = by_result t.result refl
    where
      by_result :
          (r : Result LoopError A)
          → t.result ≡ r
          → Justified
              (recognise before
                (record { attempts = t.attempts; result = r })
                device
                compute_type).result
      by_result (ok x) e = h x e
      by_result (err x) e = inr (asr_failure_code_never (raised_of x) Substep.transcribe, why)

  -- What a run in full gives: a transcription always ends, with a transcript only if the model gave
  -- it for one of the sizes.
  ran :
      (run : ℕ → Result Raised A) (sizes : List ℕ) (t : Tried A)
      → Explained run sizes t
      → (x : A) → t.result ≡ ok x
      → (b : ℕ) × (run b ≡ ok x)
  ran run sizes t h x e = (h.batch, subst (IsLast run h.batch) e h.last)

  -- A verdict over a recognition that must be there.
  abbrev pub IsJustified : Option (Recognition A) → Type 0
  IsJustified none = ⊥
  IsJustified (some r) = Justified r.result

  with_tried-IsJustified :
      (tried : Option (Tried A)) (next : Tried A → Option (Recognition A)) (t : Tried A)
      → tried ≡ some t
      → IsJustified (next t)
      → IsJustified (with_tried tried next)
  with_tried-IsJustified tried next t e h = subst (λ o. IsJustified (with_tried o next)) (sym e) h

  on_cpu_model-IsJustified :
      (before : List Attempt) (loaded : Result Raised (ℕ → Result Raised A))
      → s.load_cpu_model ≡ loaded
      → s.allow_cpu_fallback ≡ true
      → IsJustified (on_cpu_model s before loaded)
  on_cpu_model-IsJustified before (err e) load allowed =
      inr (asr_failure_code_never e Substep.model_load, inr allowed)
  on_cpu_model-IsJustified before (ok run) load allowed =
      let (sizes, t, found, halves, explained) = transcribe_model-Explained run s.cpu_batch_size in
      with_tried-IsJustified _ _ t found (
        recognise-Justified before t "cpu" s.cpu_compute_type
          (λ x e.
            let gave = ran run sizes t explained x e in
            inr (refl, refl, allowed, run, load, gave.0, gave.1))
          (inr allowed))

  fall_back_on_cpu-IsJustified :
      (t : Tried A)
      → ((x : A) → t.result ≡ ok x → (b : ℕ) × (s.run b ≡ ok x))
      → IsJustified (fall_back_on_cpu s t)
  fall_back_on_cpu-IsJustified t gave =
      if_ind IsJustified (s.device =s= "cpu")
        (λ cpu.
          recognise-Justified [] t s.device s.compute_type
            (λ x e. inl (refl, refl, (gave x e).0, (gave x e).1)) (inl cpu))
        (λ gpu.
          if_ind IsJustified (not s.allow_cpu_fallback) (λ no. inl (refl, ground (arith, no), gpu))
            (λ allowed.
              on_cpu_model-IsJustified t.attempts s.load_cpu_model refl (ground (arith, allowed))))

  conclude_tried-IsJustified :
      (t : Tried A)
      → ((x : A) → t.result ≡ ok x → (b : ℕ) × (s.run b ≡ ok x))
      → IsJustified (conclude_tried s t)
  conclude_tried-IsJustified t gave = by_result t.result refl
    where
      by_result :
          (r : Result LoopError A)
          → t.result ≡ r
          → IsJustified (conclude_tried s (record { attempts = t.attempts; result = r }))
      by_result (ok x) e = inl (refl, refl, (gave x e).0, (gave x e).1)
      by_result (err x) e =
          fall_back_on_cpu-IsJustified (record { attempts = t.attempts; result = err x })
            (λ y d. gave y (e ∙ d))

  -- Recognition always ends, and its result is justified: a transcript is the one of the setting's
  -- model on its device, or of the CPU's model, then with an approval; and the error that asks for
  -- an approval is raised off the CPU without one, and no other error is raised there.
  pub transcribe_with_fallback-IsJustified : IsJustified (transcribe_with_fallback s)
  unfolding transcribe_with_fallback
  transcribe_with_fallback-IsJustified =
      let (sizes, t, found, halves, explained) =
        transcribe_model-Explained s.run
          (if s.device =s= "cpu" then s.cpu_batch_size else gpu_batch_size) in
      with_tried-IsJustified _ _ t found
        (conclude_tried-IsJustified t (ran s.run sizes t explained))
