-- ===== src/Stages/Liveness.antt =====
-- A document that waits for its first stage is INDEXED after the five runs.
use mathlib.Core.List.{append_assoc}
use doc_mind_ai.Base.{ℕ, ◌≡◌, refl, sym, ap, ◌∙◌, none, some, String, List, [], ◌∷◌, ◌++◌}
use doc_mind_ai.Model.Enums.{JobStage, extract, clean, chunk, embed, index, indexed}
use doc_mind_ai.Model.Rows.{Document, get_document}
use doc_mind_ai.Worker.Keeps.{IsFresh}
use doc_mind_ai.Worker.Stage.{World, StageFn, Env, accepted, after, run_stage}
use doc_mind_ai.Worker.Success.{after-stage_order}
use doc_mind_ai.Stages.Pipeline.{
  alone, Artifacts, Delivers, Waits, run_stage-Waits, run_stage-Indexed,
}

-- The id of the task that was enqueued last.
abbrev newest_or : ℕ → List (String × ℕ) → ℕ
newest_or n [] = n
newest_or n ((task, m) ∷ rest) = newest_or m rest

newest_or-append :
    (n : ℕ) (q : List (String × ℕ)) (task : String) (m : ℕ) → newest_or n (q ++ (task, m) ∷ []) ≡ m
newest_or-append n [] task m = refl
newest_or-append n ((_, k) ∷ q) task m = newest_or-append k q task m

-- The stages run one after the other, each for the task that the run before it enqueued.
abbrev pub runs : Env → (JobStage → StageFn) → List JobStage → ℕ → World → World
runs env body [] i w = w
runs env body (s ∷ rest) i w =
    let w' = (run_stage env i s (body s) w).1 in runs env body rest (newest_or 0 w'.queue) w'

module _ (env : Env) (fresh : IsFresh env.new_id)
    (accepts : (v : World) (n : ℕ) → env.redis v n ≡ accepted) (fn : StageFn)
    (found left : Artifacts) (delivers : Delivers fn found left) (s : JobStage) (d i : ℕ)
    (w : World) (waits : Waits found s d i w) where
  abbrev finished : World
  finished = (run_stage (alone env) i s fn w).1

  next-Waits :
      (next : JobStage) (task : String)
      → after s ≡ some (next, task)
      → (finished.queue ≡ w.queue ++ (task, newest_or 0 finished.queue) ∷ [])
        × Waits left next d (newest_or 0 finished.queue) finished
  next-Waits next task follows =
      let (n, r, queue, then_waits) =
        run_stage-Waits env fn found left delivers i w waits.job waits.doc waits.ready
          waits.artifacts fresh accepts next task (ap after waits.at ∙ follows) in
      let named = ap (newest_or 0) queue ∙ newest_or-append 0 w.queue task n in
      rw (sym waits.at) (rw (sym waits.owned) (rw named (queue, then_waits)))

  last-Indexed :
      after s ≡ none
      → (finished.queue ≡ w.queue)
        × (doc : Document) × (get_document d finished.db ≡ some doc)
        × (doc.status ≡ indexed)
        × (doc.indexed_at ≡ some env.end_time)
  last-Indexed last =
      let (r, queue, docs) =
        run_stage-Indexed env fn found left delivers i w waits.job waits.doc waits.ready
          waits.artifacts (ap after waits.at ∙ last) in
      rw (sym waits.at) (rw (sym waits.owned) (queue, _, docs, refl, refl))

appended {ℓ} :
    {A : Type ℓ} (q q1 q2 q3 q4 q5 : List A) (a b c e : A)
    → q1 ≡ q ++ a ∷ []
    → q2 ≡ q1 ++ b ∷ []
    → q3 ≡ q2 ++ c ∷ []
    → q4 ≡ q3 ++ e ∷ []
    → q5 ≡ q4
    → q5 ≡ q ++ a ∷ b ∷ c ∷ e ∷ []
appended q q1 q2 q3 q4 q5 a b c e h1 h2 h3 h4 h5 =
    h5
    ∙ h4
    ∙ ap (λ t. t ++ e ∷ []) (h3 ∙ ap (λ t. t ++ c ∷ []) (h2 ∙ ap (λ t. t ++ b ∷ []) h1))
    ∙ ap (λ t. (t ++ c ∷ []) ++ e ∷ []) (append_assoc q (a ∷ []) (b ∷ []))
    ∙ ap (λ t. t ++ e ∷ []) (append_assoc q (a ∷ b ∷ []) (c ∷ []))
    ∙ append_assoc q (a ∷ b ∷ c ∷ []) (e ∷ [])

-- The five stages, in their order.
abbrev pub all_stages : List JobStage
all_stages = extract ∷ clean ∷ chunk ∷ embed ∷ index ∷ []

-- What the run of the pipeline leaves: four tasks in order, and the document INDEXED.
pub record IsComplete (env : Env) (d : ℕ) (before after : World) : Type 0 where
  pub doc : Document
  pub there : get_document d after.db ≡ some doc
  pub indexed : doc.status ≡ indexed
  pub stamped : doc.indexed_at ≡ some env.end_time
  pub clean_id : ℕ
  pub chunk_id : ℕ
  pub embed_id : ℕ
  pub index_id : ℕ
  pub tasks :
      after.queue
      ≡ before.queue
        ++ ("process_clean", clean_id)
          ∷ ("process_chunk", chunk_id)
          ∷ ("process_embed", embed_id)
          ∷ ("process_index", index_id)
          ∷ []

module _ (env : Env) (fresh : IsFresh env.new_id)
    (accepts : (v : World) (n : ℕ) → env.redis v n ≡ accepted) (body : JobStage → StageFn)
    (needs : JobStage → Artifacts) (left : Artifacts)
    (extracts : Delivers (body extract) (needs extract) (needs clean))
    (cleans : Delivers (body clean) (needs clean) (needs chunk))
    (chunks : Delivers (body chunk) (needs chunk) (needs embed))
    (embeds : Delivers (body embed) (needs embed) (needs index))
    (indexes : Delivers (body index) (needs index) left) where
  pub runs-IsComplete :
      (d i : ℕ) (w : World)
      → Waits (needs extract) extract d i w
      → IsComplete env d w (runs (alone env) body all_stages i w)
  runs-IsComplete d i w w0 =
      let (to_clean, to_chunk, to_embed, to_index, end) = after-stage_order in
      let (q1, w1) =
        next-Waits env fresh accepts _ _ _ extracts extract d i w w0 clean "process_clean"
          to_clean in
      let (q2, w2) =
        next-Waits env fresh accepts _ _ _ cleans clean d _ _ w1 chunk "process_chunk" to_chunk in
      let (q3, w3) =
        next-Waits env fresh accepts _ _ _ chunks chunk d _ _ w2 embed "process_embed" to_embed in
      let (q4, w4) =
        next-Waits env fresh accepts _ _ _ embeds embed d _ _ w3 index "process_index" to_index in
      let (q5, doc, there, is_indexed, stamp) =
        last-Indexed env fresh accepts _ _ _ indexes index d _ _ w4 end in
      record {
        doc = doc;
        there = there;
        indexed = is_indexed;
        stamped = stamp;
        clean_id = _;
        chunk_id = _;
        embed_id = _;
        index_id = _;
        tasks = appended _ _ _ _ _ _ _ _ _ _ q1 q2 q3 q4 q5;
      }
