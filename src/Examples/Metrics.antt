-- ===== src/Examples/Metrics.antt =====
-- Three results, of which the second is relevant.
use doc_mind_ai.Base.{◌<◌, ◌≡◌, ◌↔◌, String, List, [], ◌∷◌}
use doc_mind_ai.Evaluation.Metrics.{hit_at_k, precision_at_k, recall_at_k, mrr_at_k}
use doc_mind_ai.Evaluation.Agreement.{IsProper, metrics_sound}

abbrev results : List String
results = "a" ∷ "b" ∷ "c" ∷ []

abbrev relevant : List String
relevant = "b" ∷ "d" ∷ []

metrics_sound_example :
    let hit = (hit_at_k results relevant 2).numerator ≡ 1 in
    ((hit ↔ (0 < (precision_at_k results relevant 2).numerator))
      × (hit ↔ (0 < (recall_at_k results relevant 2).numerator))
      × (hit ↔ ((mrr_at_k results relevant 2).numerator ≡ 1)))
    × IsProper (hit_at_k results relevant 2)
    × IsProper (precision_at_k results relevant 2)
    × IsProper (recall_at_k results relevant 2)
    × IsProper (mrr_at_k results relevant 2)
metrics_sound_example = metrics_sound results relevant 2
